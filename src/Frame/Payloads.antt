-- ===== src/Frame/Payloads.antt =====
-- The round trip of each kind of frame that the agent writes, and of the HELLO that it reads.
use spop.Base.{
  ℕ, ◌≤◌, ◌≡◌, ◌⊎◌, refl, sym, ap, ◌∙◌, true, List, [], ◌∷◌, ◌++◌, map, Option, ◌>>=◌, Result, ok,
  Error, length, append_assoc, append-nil, All, arith, min,
}
use spop.Action.{Action}
use spop.Action.Wire
use spop.Action.Wire.{
  actions_wire, action_wire, received_action, marshal-wire, unmarshal-actions_wire,
}
use spop.Kv.{Kv}
use spop.Kv.Wire.{SendableItem, kv_wire, received_item, kv_bytes-wire, unmarshal-kv_wire}
use spop.Frame.{
  Frame, new_frame, max_frame_size, type_haproxy_hello, type_haproxy_disconnect, type_agent_hello,
  type_agent_disconnect, type_agent_ack,
}
use spop.Frame.Encode.{
  marshal_all, encode_payload, framed, encode, wrote, buffer, after_write, to_buffer, Writer,
}
use spop.Frame.Read.{
  is_known_type, accepts_type, keep_hello_items, read_kv, read_actions, read_hello, read_payload,
  read_limit,
}
use spop.Frame.RoundTrip.{
  body_wire, headed, IsWritable, encode-writer, encode_body-wire, encode-buffer, read_limit-framed,
}

-- What both sides do with a frame whose payload is written as `payload` and read as `r`: `Encode`
-- hands its bytes to whatever writer it is given and answers by what that says, a buffer takes them
-- all, and `ReadLimit` reads these very bytes.
pub record Travels (f : Frame) (payload : List ℕ) (r : Result Frame) (rest : List ℕ)
    (ending : Error) (limit : ℕ) (accept : Option (List ℕ)) : Type 0 where
  pub sent : to_buffer f ≡ ok (framed (body_wire f payload))
  pub handed :
      (dest : Writer)
      → encode dest f ≡ (
        record f { len = length (body_wire f payload) },
        after_write (length (framed (body_wire f payload))) (dest (framed (body_wire f payload))),
      )
  pub whole : encode buffer f ≡ (
    record f { len = length (body_wire f payload) },
    wrote (length (framed (body_wire f payload))),
  )
  pub read :
      read_limit new_frame
        (record { input = framed (body_wire f payload) ++ rest; ending = ending })
        limit
        accept
      ≡ (r >>= λ h. ok (h, record { input = rest; ending = ending }))

travels :
    (f : Frame) (payload : List ℕ) (r : Result Frame) (rest : List ℕ) (ending : Error) (limit : ℕ)
    (accept : Option (List ℕ))
    → IsWritable f
    → is_known_type f.type ≡ true
    → accepts_type accept f.type ≡ true
    → length (body_wire f payload) ≤ min limit max_frame_size
    → encode_payload f ≡ ok payload
    → read_payload (headed new_frame f payload) payload ≡ r
    → Travels f payload r rest ending limit accept
unfolding to_buffer
travels f payload r rest ending limit accept w known allowed small e d = record {
  sent = rw (encode_body-wire f payload w e);
  handed = λ dest. encode-writer dest f payload w e (omega arith);
  whole = encode-buffer f payload w e (omega arith);
  read =
      read_limit-framed new_frame f payload rest ending limit accept w known allowed small
      ∙ ap (λ x. x >>= λ h. ok (h, record { input = rest; ending = ending })) d;
}

pub agent_kv_payload :
    (f : Frame)
    → (f.type ≡ type_agent_hello) ⊎ (f.type ≡ type_agent_disconnect)
    → All SendableItem f.kv
    → encode_payload f ≡ ok (kv_wire f.kv)
unfolding encode_payload
agent_kv_payload f t h = ground (arith, kv_bytes-wire f.kv h)

read_kv-wire :
    (g : Frame) (sent : Kv)
    → g.kv ≡ []
    → All SendableItem sent
    → read_kv g (kv_wire sent) ≡ ok (record g { kv = map received_item sent })
unfolding read_kv
read_kv-wire g sent e h = ground (arith, unmarshal-kv_wire sent [] h)

agent_kv_read :
    (f g : Frame) (sent : Kv)
    → (g.type ≡ type_agent_hello) ⊎ (g.type ≡ type_agent_disconnect)
    → g.kv ≡ []
    → All SendableItem sent
    → read_payload g (kv_wire sent) ≡ ok (record g { kv = map received_item sent })
unfolding read_payload
agent_kv_read f g sent t e h = ground (arith, read_kv-wire g sent e h)

-- An AGENT-HELLO or AGENT-DISCONNECT with values that have a TYPED-DATA type, ABORT only with FIN,
-- and a length within the reader's limit: `Encode` hands its writer the bytes whole, and
-- `ReadLimit` on a fresh frame returns its type, flags, identifiers and items, leaving what follows
-- it in the source.
pub agent_kv-Travels :
    (f : Frame) (rest : List ℕ) (ending : Error) (limit : ℕ) (accept : Option (List ℕ))
    → IsWritable f
    → (f.type ≡ type_agent_hello) ⊎ (f.type ≡ type_agent_disconnect)
    → All SendableItem f.kv
    → accepts_type accept f.type ≡ true
    → length (body_wire f (kv_wire f.kv)) ≤ min limit max_frame_size
    → Travels f
        (kv_wire f.kv)
        (ok (record (headed new_frame f (kv_wire f.kv)) { kv = map received_item f.kv }))
        rest
        ending
        limit
        accept
agent_kv-Travels f rest ending limit accept w t h allowed small =
    travels f (kv_wire f.kv) _ rest ending limit accept w (unfold is_known_type in ground arith)
      allowed small (agent_kv_payload f t h)
      (agent_kv_read f (headed new_frame f (kv_wire f.kv)) f.kv t refl h)

pub haproxy_kv_payload :
    (f : Frame)
    → (f.type ≡ type_haproxy_hello) ⊎ (f.type ≡ type_haproxy_disconnect)
    → All SendableItem f.kv
    → encode_payload f ≡ ok (kv_wire f.kv)
unfolding encode_payload
haproxy_kv_payload f t h = ground (arith, kv_bytes-wire f.kv h)

pub haproxy_kv_read :
    (g : Frame) (sent : Kv)
    → (g.type ≡ type_haproxy_hello) ⊎ (g.type ≡ type_haproxy_disconnect)
    → g.kv ≡ []
    → All SendableItem sent
    → read_payload g (kv_wire sent) ≡ keep_hello_items (record g { kv = map received_item sent })
unfolding read_payload read_hello
haproxy_kv_read g sent t e h = ground (arith, read_kv-wire g sent e h)

marshal_all-wire :
    (actions : List Action) (payload : List ℕ)
    → All Wire.IsSendable actions
    → marshal_all actions payload ≡ ok (payload ++ actions_wire actions)
unfolding marshal_all
marshal_all-wire [] payload h = ap ok (sym (append-nil payload))
marshal_all-wire (a ∷ actions) payload (ha, h) = ground (
  arith,
  marshal-wire a payload ha,
  marshal_all-wire actions (payload ++ action_wire a) h,
  append_assoc payload (action_wire a) (actions_wire actions),
)

pub ack_payload :
    (f : Frame)
    → f.type ≡ type_agent_ack
    → All Wire.IsSendable f.actions
    → encode_payload f ≡ ok (actions_wire f.actions)
unfolding encode_payload
ack_payload f t h = ground (arith, marshal_all-wire f.actions [] h)

pub ack_read :
    (g : Frame) (sent : List Action)
    → g.type ≡ type_agent_ack
    → All Wire.IsSendable sent
    → read_payload g (actions_wire sent) ≡ ok (record g { actions = map received_action sent })
unfolding read_payload read_actions
ack_read g sent t h = ground (arith, unmarshal-actions_wire sent h)

-- An AGENT-ACK with well-formed actions, ABORT only with FIN, and a length within the reader's
-- limit: `Encode` hands its writer the bytes whole, and `ReadLimit` on a fresh frame returns its
-- type, flags, identifiers and actions, leaving what follows it in the source.
pub ack-Travels :
    (f : Frame) (rest : List ℕ) (ending : Error) (limit : ℕ) (accept : Option (List ℕ))
    → IsWritable f
    → f.type ≡ type_agent_ack
    → All Wire.IsSendable f.actions
    → accepts_type accept f.type ≡ true
    → length (body_wire f (actions_wire f.actions)) ≤ min limit max_frame_size
    → Travels f
        (actions_wire f.actions)
        (ok (record (headed new_frame f (actions_wire f.actions)) {
          actions = map received_action f.actions;
        }))
        rest
        ending
        limit
        accept
ack-Travels f rest ending limit accept w t h allowed small =
    travels f (actions_wire f.actions) _ rest ending limit accept w
      (unfold is_known_type in ground arith) allowed small (ack_payload f t h)
      (ack_read (headed new_frame f (actions_wire f.actions)) f.actions t h)
