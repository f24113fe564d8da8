-- ===== src/Worker/Runs.antt =====
-- Runs of a worker at concrete inputs, and its theorems there.
use spop.Base.{
  ℕ, suc, ok, ◌+◌, ◌≤◌, ◌≡◌, refl, Bool, true, false, List, [], ◌∷◌, ◌++◌, subst, sym, All, IsByte,
  none, some, arith, pos, length, codes, end_of_file, slice_to, slice_from, eq_bytes,
}
use spop.Varint.{uvarint, uvarint_bytes}
use spop.TypedData.{encode, decode}
use spop.Kv.{add, get, kv_bytes, unmarshal}
use spop.Action.{Action}
use spop.Request.{Request}
use spop.Transport.{NetConn, new_conn, write_frame, write_payload, write_all, read_deadline}
use spop.Message
use spop.Transport.Calls.{writes}
use spop.Worker.Written.{Acks}
use spop.Worker.Heard.{keys, in_hand}
use spop.Worker.Lands.{OwnErrors}
use spop.Worker.Counted.{heard, held, Fine}
use spop.Worker.Accounts.{LeftBy}
use spop.Worker.Answered.{Reach-Answered, Reach-Fine}
use spop.Frame.{
  Frame, type_notify, type_agent_ack, new_frame, type_agent_hello, type_agent_disconnect,
}
use spop.Frame.Encode.{to_buffer, encode_body}
use spop.Frame.Read.{
  Source, read_limit, read_full, map_err, check_header, uint32_at, type_of_header, read_body,
  read_payload, read_messages, read_varint, read_hello, read_kv, keep_hello_items, keep_healthcheck,
  keep_max_frame_size, keep_engine_id,
}
use spop.Handshake.{string_item, version_supported, negotiate, closed_by_server, already_ready}
use spop.Handshake.Text.{cut, split, trim_space, atoi}
use spop.Worker.{
  Setting, Worker, new_worker, send_frame, send_bytes, send_agent_disconnect, send_agent_hello,
  disconnect_once, frame_limit, write_ack, slot_limit,
}
use spop.Worker.Loop.{
  starting, take_notify, acquire_slot, dispatch, arm_turn, arm_read_deadline, read_turn,
  set_deadline,
}
use spop.Worker.Machine.{
  Machine, new_machine, loop_turn, answer, turns, unparks, answers, Reach, start, onwards,
}
use spop.Kv.Wire.{kv_wire}
use spop.Frame.{from_agent}
use spop.Frame.RoundTrip.{headed}
use spop.Frame.Payloads.{Travels}
use spop.Worker.{agent_hello, agent_disconnect}
use spop.Worker.Wire.{hello_items, goodbye_items, agent_hello-Travels, agent_disconnect-Travels}
use spop.Frame.{max_frame_size}
use spop.Handshake.{min_frame_size}
use spop.Worker.{length_field, ack_frame}
use spop.Worker.Sizes.{Reach-Within}
use spop.Worker.Sending.{sent_types}
use spop.Worker.Order.{Carried, bit}
use spop.Worker.Turns.{is_over}
use spop.Worker.Session.{Reach-Carried}
use spop.Action.Encoding.{HasGoValues}
use spop.Worker.Sound.{MakesStrings, LeavesGoValues}
use spop.Worker.Work.{moves}
use spop.Worker.Finish.{Leads, Finished, Reach-Finishes, Reach-Ends}
use spop.Worker.Limits.{Slots, Reach-Slots}

abbrev willing : NetConn
willing = record {
  on_write = λ calls frame. (length frame, none);
  on_close = λ calls. none;
  on_write_deadline = λ calls t. none;
  on_read_deadline = λ calls t. none;
}

abbrev setting : Setting
setting = record {
  net = willing;
  render = λ notice. [];
  clock = length;
  config = record {
    timeouts = record { handshake = pos 5; idle = pos 0; write = pos 0 };
    max_in_flight = pos 2;
  };
}

abbrev AnyActions : Request → List Action → Type 0
AnyActions req actions = Unit

abbrev hello_bytes : List ℕ
hello_bytes =
    0 ∷ 0 ∷ 0 ∷ 65 ∷ 1 ∷ 0 ∷ 0 ∷ 0 ∷ 1 ∷ 0 ∷ 0 ∷ (18 ∷ codes "supported-versions")
    ++ (8 ∷ 3 ∷ codes "2.0")
    ++ (14 ∷ codes "max-frame-size")
    ++ (3 ∷ 240 ∷ 241 ∷ 6 ∷ [])
    ++ (12 ∷ codes "capabilities")
    ++ (8 ∷ 0 ∷ [])

abbrev hello_source : Source
hello_source = record { input = hello_bytes; ending = end_of_file }

abbrev turn : Machine → Machine
turn m = loop_turn setting false m

abbrev greeted : Machine
greeted = turn (turn (turn (new_machine setting hello_source)))

greeted_types : sent_types greeted.worker ≡ type_agent_hello ∷ []
unfolding loop_turn arm_turn arm_read_deadline read_deadline set_deadline read_turn read_limit
    map_err read_full check_header type_of_header uint32_at frame_limit read_body read_payload
    read_varint read_hello read_kv keep_hello_items keep_healthcheck keep_max_frame_size
    keep_engine_id slice_to slice_from uvarint get eq_bytes unmarshal decode add dispatch negotiate
    string_item version_supported cut split trim_space atoi send_agent_hello send_frame send_bytes
    to_buffer encode_body kv_bytes encode uvarint_bytes write_frame write_payload write_all
greeted_types = refl

greeted-Reach :
    (handler : Request → List Action → Type 0) → Reach setting handler hello_source greeted
unfolding loop_turn arm_turn arm_read_deadline read_deadline set_deadline read_turn read_limit
    map_err read_full check_header type_of_header uint32_at frame_limit read_body read_payload
    read_varint read_hello read_kv keep_hello_items keep_healthcheck keep_max_frame_size
    keep_engine_id slice_to slice_from uvarint get eq_bytes unmarshal decode add dispatch negotiate
    string_item version_supported cut split trim_space atoi send_agent_hello send_frame send_bytes
    to_buffer encode_body kv_bytes encode uvarint_bytes write_frame write_payload write_all
greeted-Reach handler =
    onwards (onwards (onwards start (turns false refl)) (turns false refl)) (turns false refl)

Reach-Carried_example :
    (hello_sent : Bool) × (n : ℕ) × Carried hello_sent n (sent_types greeted.worker)
    × (n ≤ bit greeted.worker.disconnected + bit (is_over greeted.phase))
Reach-Carried_example =
    Reach-Carried setting AnyActions hello_source greeted (greeted-Reach AnyActions)

Reach-Slots_example : Slots 2 greeted
Reach-Slots_example =
    Reach-Slots setting AnyActions hello_source greeted 2 (unfold slot_limit in refl)
      (greeted-Reach AnyActions)

abbrev ready_worker : Worker
ready_worker = record (new_worker new_conn) { ready = true; max_frame = 300 }

-- An ACK behind a goodbye is held back.
acks_held_back :
    sent_types
      (answer setting new_frame []
        (send_agent_disconnect setting 0 closed_by_server ready_worker).0).0
    ≡ type_agent_disconnect ∷ []
unfolding answer write_ack send_agent_disconnect send_frame send_bytes to_buffer encode_body
    kv_bytes encode add uvarint_bytes slice_to write_frame write_payload write_all
acks_held_back = refl

-- A handler whose ACK failed reports it after the read loop has answered a HAPROXY-DISCONNECT.
two_goodbyes :
    sent_types (
      disconnect_once setting 3 already_ready
        (send_agent_disconnect setting 0 closed_by_server ready_worker).0)
    ≡ type_agent_disconnect ∷ type_agent_disconnect ∷ []
unfolding disconnect_once send_agent_disconnect send_frame send_bytes to_buffer encode_body kv_bytes
    encode add uvarint_bytes slice_to write_frame write_payload write_all
two_goodbyes = refl

agent_hello-Travels_example :
    let f = agent_hello 16384 in
    Travels f
      (kv_wire f.kv)
      (ok (record (headed new_frame f (kv_wire f.kv)) { kv = hello_items 16384 }))
      (9 ∷ [])
      end_of_file
      256
      (some from_agent)
agent_hello-Travels_example =
    agent_hello-Travels 16384 (9 ∷ []) end_of_file 256 (omega arith) (omega arith)

agent_disconnect-Travels_example :
    let f = agent_disconnect 2 (codes "timed out") in
    Travels f
      (kv_wire f.kv)
      (ok (record (headed new_frame f (kv_wire f.kv)) { kv = goodbye_items 2 (codes "timed out") }))
      []
      end_of_file
      256
      (some from_agent)
agent_disconnect-Travels_example =
    agent_disconnect-Travels 2 (codes "timed out") [] end_of_file 256 (omega arith)
      (omega arith, omega arith) (omega arith)

Reach-Within_example :
    (min_frame_size ≤ frame_limit greeted.worker)
    × (frame_limit greeted.worker ≤ max_frame_size)
    × ((write_ack setting (ack_frame new_frame []) greeted.worker).1 ≡ ok tt
        → (bytes : List ℕ) × (to_buffer (ack_frame new_frame []) ≡ ok bytes)
          × (length_field bytes ≤ frame_limit greeted.worker))
Reach-Within_example =
    Reach-Within setting AnyActions hello_source greeted (ack_frame new_frame [])
      (greeted-Reach AnyActions)

-- A NOTIFY without messages, behind the hello.
abbrev notify_source : Source
notify_source = record {
  input = hello_bytes ++ (0 ∷ 0 ∷ 0 ∷ 7 ∷ 3 ∷ 0 ∷ 0 ∷ 0 ∷ 1 ∷ 7 ∷ 9 ∷ []);
  ending = end_of_file;
}

abbrev notify_frame : Frame
notify_frame = record new_frame {
  len = 7;
  type = type_notify;
  flags = 1;
  stream_id = 7;
  frame_id = 9;
}

abbrev parked_at : Machine
parked_at = turn (turn (turn (turn (turn (turn (new_machine setting notify_source))))))

abbrev handled_at : Machine
handled_at = turn (record parked_at {
  worker = record parked_at.worker { slots = suc parked_at.worker.slots };
  phase = starting notify_frame;
})

abbrev answered_at : Machine
answered_at = record handled_at {
  worker = (answer setting notify_frame [] handled_at.worker).0;
  tasks = (answer setting notify_frame [] handled_at.worker).1 ∷ [];
}

answered_at-Reach : Reach setting AnyActions notify_source answered_at
unfolding loop_turn arm_turn arm_read_deadline read_deadline set_deadline read_turn read_limit
    map_err read_full check_header type_of_header uint32_at frame_limit read_body read_payload
    read_varint read_hello read_kv keep_hello_items keep_healthcheck keep_max_frame_size
    keep_engine_id slice_to slice_from uvarint get eq_bytes unmarshal decode add dispatch negotiate
    string_item version_supported cut split trim_space atoi send_agent_hello send_frame send_bytes
    to_buffer encode_body kv_bytes encode uvarint_bytes write_frame write_payload write_all
    read_messages Message.decode take_notify acquire_slot slot_limit answer
answered_at-Reach =
    let parked_reach : Reach setting AnyActions notify_source parked_at =
      onwards
        (onwards
          (onwards
            (onwards (onwards (onwards start (turns false refl)) (turns false refl))
              (turns false refl))
            (turns false refl))
          (turns false refl))
        (turns false refl) in
    onwards
      (onwards (onwards parked_reach (unparks notify_frame 2 refl refl refl (omega arith)))
        (turns false refl))
      (answers notify_frame [] [] [] refl refl tt)

answered_types : sent_types answered_at.worker ≡ type_agent_ack ∷ type_agent_hello ∷ []
unfolding loop_turn arm_turn arm_read_deadline read_deadline set_deadline read_turn read_limit
    map_err read_full check_header type_of_header uint32_at frame_limit read_body read_payload
    read_varint read_hello read_kv keep_hello_items keep_healthcheck keep_max_frame_size
    keep_engine_id slice_to slice_from uvarint get eq_bytes unmarshal decode add dispatch negotiate
    string_item version_supported cut split trim_space atoi send_agent_hello send_frame send_bytes
    to_buffer encode_body kv_bytes encode uvarint_bytes write_frame write_payload write_all
    read_messages Message.decode take_notify acquire_slot slot_limit answer write_ack
answered_types = refl

Reach-Answered_example :
    (fs : List Frame) × Acks
      (LeftBy AnyActions answered_at.worker)
      (writes answered_at.worker.conn.calls)
      fs
    × ((P : Frame → Bool) → keys fs P ≤ keys (heard answered_at-Reach) P)
Reach-Answered_example =
    Reach-Answered setting AnyActions notify_source answered_at answered_at-Reach

answered_at-Fine : Fine answered_at
unfolding loop_turn arm_turn arm_read_deadline read_deadline set_deadline read_turn read_limit
    map_err read_full check_header type_of_header uint32_at frame_limit read_body read_payload
    read_varint read_hello read_kv keep_hello_items keep_healthcheck keep_max_frame_size
    keep_engine_id slice_to slice_from uvarint get eq_bytes unmarshal decode add dispatch negotiate
    string_item version_supported cut split trim_space atoi send_agent_hello send_frame send_bytes
    to_buffer encode_body kv_bytes encode uvarint_bytes write_frame write_payload write_all
    read_messages Message.decode take_notify acquire_slot slot_limit answer write_ack
answered_at-Fine = record { silent = (refl, refl); alive = refl; live = λ e. cc; clean = refl }

willing-OwnErrors : OwnErrors willing
willing-OwnErrors = (λ calls frame e. cc, λ calls t e. cc)

Reach-Fine_example :
    (fs : List Frame) × Acks
      (LeftBy AnyActions answered_at.worker)
      (writes answered_at.worker.conn.calls)
      fs
    × ((P : Frame → Bool)
        → keys fs P + (held answered_at.tasks P + keys (in_hand answered_at.phase) P)
          ≡ keys (heard answered_at-Reach) P)
Reach-Fine_example =
    Reach-Fine setting AnyActions notify_source answered_at willing-OwnErrors answered_at-Reach
      answered_at-Fine

abbrev NoActions : Request → List Action → Type 0
NoActions req actions = actions ≡ []

NoActions-LeavesGoValues : LeavesGoValues NoActions
NoActions-LeavesGoValues req actions e = subst (All HasGoValues) (sym e) tt

setting-MakesStrings : MakesStrings setting
setting-MakesStrings notice = (tt, omega arith)

hello_source-bytes : All IsByte hello_source.input
hello_source-bytes = omega arith

Reach-Ends_example :
    (greeted.worker.panicked ≡ false)
    × (moves (greeted-Reach NoActions) ≤ 4 + length hello_source.input)
Reach-Ends_example =
    Reach-Ends setting NoActions hello_source greeted setting-MakesStrings NoActions-LeavesGoValues
      hello_source-bytes (greeted-Reach NoActions)

Reach-Finishes_example : (m' : Machine) × Leads setting NoActions greeted m' × Finished setting m'
Reach-Finishes_example =
    Reach-Finishes setting NoActions hello_source greeted setting-MakesStrings
      NoActions-LeavesGoValues (λ req. ([], refl)) hello_source-bytes (greeted-Reach NoActions)
