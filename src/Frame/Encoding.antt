-- ===== src/Frame/Encoding.antt =====
-- `Encode` of a frame, of its payload and of its header: it ends with bytes or with an error.
use spop.Base.{
  ℕ, List, [], ◌∷◌, ◌||◌, not, ◌&&◌, length, All, ltb, ◌==◌, IsU64, Safely, returns, refuses,
  Safely-bind, Safely-if, Safely-refuse_if,
}
use spop.TypedData.Encoding.{uvarint_bytes-Safely}
use spop.Kv.{IsItem}
use spop.Kv.Encoding.{kv_bytes-Safely}
use spop.Action.{Action}
use spop.Action.Encoding.{HasGoValues, marshal-Safely}
use spop.Frame.{
  Frame, is_abort, is_fin, type_haproxy_hello, type_haproxy_disconnect, type_notify,
  type_agent_hello, type_agent_disconnect, type_agent_ack,
}
use spop.Frame.Encode.{marshal_all, encode_payload, encode_body, to_buffer}

-- The identifiers are words, and the items and actions hold values of Go's types.
pub record IsEncodable (f : Frame) : Type 0 where
  pub stream_word : IsU64 f.stream_id
  pub frame_word : IsU64 f.frame_id
  pub items : All IsItem f.kv
  pub go_actions : All HasGoValues f.actions

marshal_all-Safely :
    (actions : List Action) (payload : List ℕ)
    → All HasGoValues actions
    → Safely (λ b. Unit {0}) (marshal_all actions payload)
unfolding marshal_all
marshal_all-Safely [] payload h = returns tt
marshal_all-Safely (a ∷ actions) payload (ha, h) =
    Safely-bind (marshal-Safely a payload ha) λ payload' _. marshal_all-Safely actions payload' h

encode_payload-Safely : (f : Frame) → IsEncodable f → Safely (λ b. Unit {0}) (encode_payload f)
unfolding encode_payload
encode_payload-Safely f h =
    Safely-if
      (f.type == type_agent_hello
        || f.type == type_agent_disconnect
        || f.type == type_haproxy_hello
        || f.type == type_haproxy_disconnect)
      (λ _. kv_bytes-Safely f.kv h.items)
      λ _.
        Safely-if (f.type == type_agent_ack) (λ _. marshal_all-Safely f.actions [] h.go_actions)
          λ _.
            Safely-if (f.type == type_notify)
              (λ _. Safely-if (ltb 0 (length f.messages)) (λ _. refuses) (λ _. returns tt))
              λ _. refuses

encode_body-Safely : (f : Frame) → IsEncodable f → Safely (λ b. Unit {0}) (encode_body f)
unfolding encode_body
encode_body-Safely f h = Safely-refuse_if (is_abort f && not (is_fin f)) _ λ _.
    Safely-bind (uvarint_bytes-Safely f.stream_id h.stream_word) λ stream_id _.
      Safely-bind (uvarint_bytes-Safely f.frame_id h.frame_word)
        λ frame_id _. Safely-bind (encode_payload-Safely f h) λ payload _. returns tt

-- Encoding a frame into a buffer ends with bytes or with an error, whatever its type, its flags
-- and its content.
pub to_buffer-Safely : (f : Frame) → IsEncodable f → Safely (λ b. Unit {0}) (to_buffer f)
unfolding to_buffer
to_buffer-Safely f h = Safely-bind (encode_body-Safely f h) λ body _. returns tt
