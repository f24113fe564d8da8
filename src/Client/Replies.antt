-- ===== src/Client/Replies.antt =====
-- The frames of the worker, and what the client reads of them.
use spop.Base.{
  ℕ, ◌≤◌, ◌≡◌, refl, sym, subst, inl, inr, List, arith, length, ◌+◌, All, IsU32, false, ltb, le→ltb,
  map,
}
use spop.TypedData.{IsString}
use spop.Action.{Action}
use spop.Action.Wire.{IsSendable, actions_wire, received_action}
use spop.Kv.Wire.{SendableItem, kv_wire}
use spop.Frame.{Frame, new_frame, is_abort, is_fin, from_agent, max_frame_size}
use spop.Frame.Encode.{put_uint32}
use spop.Frame.Read.{accepts_type, is_known_type}
use spop.Frame.RoundTrip.{IsWritable, headed, length-body_wire-le}
use spop.Frame.Payloads.{agent_kv_payload, ack_payload, ack_read}
use spop.Worker.{agent_hello, agent_disconnect, ack_frame, length_field}
use spop.Worker.Wire.{
  hello_items, goodbye_items, hello_items_kv, goodbye_items_kv, hello_items-SendableItem,
  goodbye_items-SendableItem, agent_hello-IsWritable, agent_disconnect-IsWritable,
  agent_hello-Travels, agent_disconnect-Travels,
}
use spop.Client.Sending.{wire_of, to_buffer-wire}
use spop.Client.Wire.{Crosses, crosses, notify_received}

-- The bytes of the AGENT-HELLO, the AGENT-DISCONNECT and the ACK.
abbrev pub agent_hello_bytes : ℕ → List ℕ
agent_hello_bytes size = wire_of (agent_hello size) (kv_wire (agent_hello size).kv)

abbrev pub agent_disconnect_bytes : ℕ → List ℕ → List ℕ
agent_disconnect_bytes code message =
    wire_of (agent_disconnect code message) (kv_wire (agent_disconnect code message).kv)

abbrev pub agent_hello_received : ℕ → Frame
agent_hello_received size =
    record (headed new_frame (agent_hello size) (kv_wire (agent_hello size).kv)) {
      kv = hello_items size;
    }

abbrev pub agent_disconnect_received : ℕ → List ℕ → Frame
agent_disconnect_received code message =
    record (headed new_frame (agent_disconnect code message)
      (kv_wire (agent_disconnect code message).kv)) { kv = goodbye_items code message }

pub agent_hello-Crosses :
    (size : ℕ)
    → IsU32 size
    → Crosses
        (agent_hello size)
        (agent_hello_received size)
        (agent_hello_bytes size)
        max_frame_size
        from_agent
agent_hello-Crosses size h = record {
  written = to_buffer-wire (agent_hello size) _ (agent_hello-IsWritable size) (
      agent_kv_payload (agent_hello size) (inl refl)
        (subst (All SendableItem) (sym (hello_items_kv size)) (hello_items-SendableItem size h)));
  taken = λ rest ending. (agent_hello-Travels size rest ending max_frame_size h (omega arith)).read;
}

pub agent_disconnect-Crosses :
    (code : ℕ) (message : List ℕ)
    → IsU32 code
    → IsString message
    → 85 + length message ≤ max_frame_size
    → Crosses
        (agent_disconnect code message)
        (agent_disconnect_received code message)
        (agent_disconnect_bytes code message)
        max_frame_size
        from_agent
agent_disconnect-Crosses code message h m room = record {
  written =
      to_buffer-wire (agent_disconnect code message) _ (agent_disconnect-IsWritable code message) (
        agent_kv_payload (agent_disconnect code message) (inr refl) (
          subst (All SendableItem) (sym (goodbye_items_kv code message))
            (goodbye_items-SendableItem code message h m)));
  taken = λ rest ending.
      (agent_disconnect-Travels code message rest ending max_frame_size h m (omega arith)).read;
}

-- The ACK of the client's NOTIFY.
abbrev pub ack : List Action → Frame
ack actions = ack_frame notify_received actions

abbrev pub ack_bytes : List Action → List ℕ
ack_bytes actions = wire_of (ack actions) (actions_wire actions)

abbrev pub ack_received : List Action → Frame
ack_received actions = record (headed new_frame (ack actions) (actions_wire actions)) {
  actions = map received_action actions;
}

ack-IsWritable : (actions : List Action) → IsWritable (ack actions)
unfolding is_abort is_fin
ack-IsWritable actions = record {
  flags_word = omega arith;
  stream_word = omega arith;
  frame_word = omega arith;
  fin_with_abort = refl;
}

pub ack-Crosses :
    (actions : List Action)
    → All IsSendable actions
    → 25 + length (actions_wire actions) ≤ max_frame_size
    → Crosses (ack actions) (ack_received actions) (ack_bytes actions) max_frame_size from_agent
ack-Crosses actions h room =
    crosses (ack actions) (ack_received actions) (actions_wire actions) max_frame_size from_agent
      (ack-IsWritable actions) (unfold is_known_type in refl) (unfold accepts_type in refl)
      (omega
        (arith, length-body_wire-le (ack actions) (actions_wire actions) (ack-IsWritable actions)))
      (ack_payload (ack actions) refl h)
      (ack_read (headed new_frame (ack actions) (actions_wire actions)) actions refl h)

-- FRAME-LENGTH of the ACK is within a limit that leaves 25 bytes for what is in front of the actions.
pub ack_bytes_within :
    (actions : List Action) (limit : ℕ)
    → 25 + length (actions_wire actions) ≤ limit
    → limit ≤ max_frame_size
    → ltb limit (length_field (ack_bytes actions)) ≡ false
unfolding put_uint32
ack_bytes_within actions limit room small = le→ltb limit (length_field (ack_bytes actions)) (
    omega
      (arith, length-body_wire-le (ack actions) (actions_wire actions) (ack-IsWritable actions)))
