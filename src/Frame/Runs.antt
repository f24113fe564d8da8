-- ===== src/Frame/Runs.antt =====
-- Runs of the frame package at concrete inputs, and its theorems there.
use spop.Base.{
  ℕ, ◌^◌, ◌≤◌, ◌≡◌, refl, inl, inr, true, List, [], ◌∷◌, map, none, some, ok, err, All, Safely,
  arith, length, length-append, codes, abort_without_fin, frame_too_big,
  unexpected_frame_type_from_peer, end_of_file,
}
use spop.Varint.{uvarint_bytes}
use spop.TypedData.{bool}
use spop.TypedData.Wire.{wire}
use spop.Kv.{Kv}
use spop.Kv.Wire.{length-item_wire-le, item_wire, SendableItem, kv_wire, received_item}
use spop.Action.{IsAction, new_unset_var}
use spop.Action.Wire.{action_wire, length-action_wire-le, actions_wire, received_action}
use spop.Frame.{
  max_frame_size, Frame, new_frame, is_abort, is_fin, from_haproxy, from_agent, type_agent_hello,
  type_agent_ack, type_notify,
}
use spop.Frame.Encode.{encode, encode_body, buffer, wrote, refused}
use spop.Frame.Read.{
  Source, read_limit, read_full, map_err, wrap_header, uint32_at, type_of_header, check_header,
  accepts_type,
}
use spop.Frame.Gate.{ReadsFrame, read_limit-ReadsFrame}
use spop.Frame.RoundTrip.{length-body_wire-le, headed, IsWritable}
use spop.Frame.Payloads.{Travels, agent_kv-Travels, ack-Travels}

abbrev notify : Frame
notify = record new_frame { type = type_notify; stream_id = 1; frame_id = 1 }

notify_bytes : List ℕ
notify_bytes = 0 ∷ 0 ∷ 0 ∷ 7 ∷ 3 ∷ 0 ∷ 0 ∷ 0 ∷ 1 ∷ 1 ∷ 1 ∷ []

encode-notify : encode buffer notify ≡ (record notify { len = 7 }, wrote 11)
unfolding encode encode_body buffer uvarint_bytes
encode-notify = refl

encode_abort :
    encode buffer (record notify { flags = 2 })
    ≡ (record notify { flags = 2 }, refused abort_without_fin)
unfolding encode encode_body
encode_abort = refl

abbrev too_big : Source
too_big = record { input = 0 ∷ 16 ∷ 0 ∷ 1 ∷ 3 ∷ []; ending = end_of_file }

read_too_big :
    read_limit new_frame too_big (2 ^ 32) none ≡ err (frame_too_big 1048577 max_frame_size)
unfolding read_limit read_full map_err check_header uint32_at type_of_header
read_too_big = refl

read_wrong_side :
    read_limit new_frame too_big (2 ^ 32) (some from_agent) ≡ err unexpected_frame_type_from_peer
unfolding read_limit read_full map_err check_header uint32_at type_of_header
read_wrong_side = refl

read_nothing :
    read_limit new_frame (record { input = []; ending = end_of_file }) 256 none ≡ err end_of_file
unfolding read_limit read_full map_err wrap_header
read_nothing = refl

read_limit-ReadsFrame_example :
    Safely
      (λ (g, src'). ReadsFrame too_big 256 (some from_haproxy) g src')
      (read_limit new_frame too_big 256 (some from_haproxy))
read_limit-ReadsFrame_example =
    read_limit-ReadsFrame new_frame too_big 256 (some from_haproxy)
      (record {
        kv_items = tt;
        all_messages = tt;
        all_actions = tt;
        engine_string = (tt, omega arith);
        size_word = omega arith;
      })
      (omega arith)

abbrev flag_kv : Kv
flag_kv = record { name = codes "healthcheck"; value = bool true } ∷ []

flag_kv-Sendable : All SendableItem flag_kv
flag_kv-Sendable = (((omega arith, tt), tt), tt)

abbrev hello : ℕ → Frame
hello type = record new_frame { type = type; kv = flag_kv }

hello-IsWritable : (type : ℕ) → IsWritable (hello type)
unfolding is_abort is_fin
hello-IsWritable type = record {
  flags_word = omega arith;
  stream_word = omega arith;
  frame_word = omega arith;
  fin_with_abort = refl;
}

flag_kv-length : length (kv_wire flag_kv) ≤ 100
unfolding wire
flag_kv-length = omega (
  arith,
  length-item_wire-le (record { name = codes "healthcheck"; value = bool true }) (omega arith, tt),
  length-append (item_wire (record { name = codes "healthcheck"; value = bool true })) [],
)

agent_kv-Travels_example :
    Travels
      (hello type_agent_hello)
      (kv_wire flag_kv)
      (ok (record (headed new_frame (hello type_agent_hello) (kv_wire flag_kv)) {
        kv = map received_item flag_kv;
      }))
      (9 ∷ [])
      end_of_file
      256
      (some from_agent)
agent_kv-Travels_example =
    agent_kv-Travels (hello type_agent_hello) (9 ∷ []) end_of_file 256 (some from_agent)
      (hello-IsWritable type_agent_hello) (inl refl) flag_kv-Sendable (unfold accepts_type in refl)
      (omega (
        arith,
        length-body_wire-le (hello type_agent_hello) (kv_wire flag_kv)
            (hello-IsWritable type_agent_hello),
        flag_kv-length,
      ))

abbrev ack : Frame
ack = record new_frame {
  type = type_agent_ack;
  stream_id = 3;
  frame_id = 300;
  actions = new_unset_var 1 (codes "x") ∷ [];
}

ack-IsWritable : IsWritable ack
unfolding is_abort is_fin
ack-IsWritable = record {
  flags_word = omega arith;
  stream_word = omega arith;
  frame_word = omega arith;
  fin_with_abort = refl;
}

unset-IsAction : IsAction (new_unset_var 1 (codes "x"))
unset-IsAction = record {
  is_type = inr refl;
  is_scope_byte = omega arith;
  is_name = omega arith;
  is_value = tt;
}

ack-Travels_example :
    Travels ack
      (actions_wire ack.actions)
      (ok (record (headed new_frame ack (actions_wire ack.actions)) {
        actions = map received_action ack.actions;
      }))
      (9 ∷ [])
      end_of_file
      256
      (some from_agent)
ack-Travels_example =
    ack-Travels ack (9 ∷ []) end_of_file 256 (some from_agent) ack-IsWritable refl
      ((unset-IsAction, tt), tt) (unfold accepts_type in refl)
      (omega (
        arith,
        length-body_wire-le ack (actions_wire ack.actions) ack-IsWritable,
        length-append (action_wire (new_unset_var 1 (codes "x"))) [],
        length-action_wire-le (new_unset_var 1 (codes "x")) unset-IsAction,
      ))
