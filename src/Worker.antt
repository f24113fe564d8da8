-- ===== src/Worker.antt =====
-- worker/worker.go, worker/frame_agenthello.go, worker/frame_disconnect.go and `writeFrame` of
-- worker/frame_notify.go: the state of a connection's worker and what it sends. Each function
-- here runs under one lock or within one goroutine; Worker/Machine has the interleavings.
pub mod Loop
pub mod Machine
pub mod Sending
pub mod Wire
pub mod Order
pub mod Turns
pub mod Dispatch
pub mod Session
pub mod Limits
pub mod Sound
pub mod Moves
pub mod Reads
pub mod Work
pub mod Progress
pub mod Finish
pub mod Written
pub mod Heard
pub mod Answered
pub mod Spoken
pub mod Lands
pub mod Counted
pub mod Accounts
pub mod Answering
pub mod Engine
pub mod Sizes
mod Runs
use spop.Base.{
  ℕ, zero, suc, ◌+◌, ◌-◌, ◌%◌, ◌^◌, ◌<◌, Bool, true, false, not, ◌&&◌, List, [], ◌∷◌, Option, none,
  some, Result, ok, err, fault, Error, ltb, ◌==◌, if◌then◌else◌, length, codes, ℤ, pos, negsuc,
  after_disconnect, cannot_encode, frame_too_big,
}
use spop.TypedData.{string, uint32}
use spop.Kv.{Kv, new_kv, add}
use spop.Action.{Action}
use spop.Transport.{NetConn, Conn, Call, new_conn, write_frame, close_conn}
use spop.Frame.{
  Frame, new_frame, max_frame_size, frame_length_prefix, type_agent_hello, type_agent_disconnect,
  type_agent_ack,
}
use spop.Frame.Encode.{to_buffer}
use spop.Handshake.{Notice, version, status_normal}
use spop.Request.{Request, new_request}

pub record Timeouts : Type 0 where
  pub handshake : ℤ
  pub idle : ℤ
  pub write : ℤ

-- `Config`, without what is a parameter (the handler), a field of the worker (Done) or the logger.
pub record Config : Type 0 where
  pub timeouts : Timeouts
  pub max_in_flight : ℤ

-- What a worker runs in: the connection below its own, the texts of `fmt`, and the clock.
pub record Setting : Type 0 where
  pub net : NetConn
  pub render : Notice → List ℕ
  pub clock : List Call → ℕ
  pub config : Config

-- `slots` counts the slots taken, `done` tells that the channel is closed, `cancelled` that the
-- context is, `disconnected` that `disconnectOnce` has run. `panicked` is not the program's: it
-- keeps that a frame's encoding did not end in a result.
pub record Worker : Type 0 where
  pub conn : Conn
  pub ready : Bool
  pub engine_id : List ℕ
  pub max_frame : ℕ
  pub disconnected : Bool
  pub goodbye_sent : Bool
  pub slots : ℕ
  pub cancelled : Bool
  pub done : Bool
  pub panicked : Bool

-- The worker that `Handle` makes.
abbrev pub new_worker : Conn → Worker
new_worker conn = record {
  conn = conn;
  ready = false;
  engine_id = [];
  max_frame = 0;
  disconnected = false;
  goodbye_sent = false;
  slots = 0;
  cancelled = false;
  done = false;
  panicked = false;
}

-- The capacity of `slots`; `none` is the nil channel.
unfoldable pub slot_limit : Config → Option ℕ
slot_limit cfg = elim cfg.max_in_flight [
  | pos zero ↦ none
  | pos (suc n) ↦ some (suc n)
  | negsuc n ↦ none
]

unfoldable pub as_result : Option Error → Result (Unit {0})
as_result none = ok tt
as_result (some e) = err e

-- Bytes go out by `WriteFrame`.
unfoldable pub send_bytes : Setting → List ℕ → Worker → Worker × Result (Unit {0})
unfolding as_result
send_bytes s bytes w =
    let (conn, e) = write_frame s.net (s.clock w.conn.calls) bytes w.conn in
    (record w { conn = conn }, as_result e)

-- Encode into a buffer, and write the buffer.
unfoldable pub send_frame : Setting → Frame → Worker → Worker × Result (Unit {0})
send_frame s f w = elim (to_buffer f) [
  | ok bytes ↦ send_bytes s bytes w
  | err e ↦ (w, err e)
  | fault x ↦ (record w { panicked = true }, fault x)
]

abbrev pub agent_hello : ℕ → Frame
agent_hello size = record new_frame {
  type = type_agent_hello;
  kv =
      add
        (add (add new_kv (codes "version") (string version)) (codes "max-frame-size") (uint32 size))
        (codes "capabilities") (string (codes "pipelining"));
}

-- `sendAgentHello`
unfoldable pub send_agent_hello : Setting → ℕ → Worker → Worker × Result (Unit {0})
send_agent_hello s size w = send_frame s (agent_hello size) w

abbrev pub agent_disconnect : ℕ → List ℕ → Frame
agent_disconnect status_code message = record new_frame {
  type = type_agent_disconnect;
  kv =
      add (add new_kv (codes "status-code") (uint32 status_code)) (codes "message")
        (string message);
}

-- `sendAgentDisconnect`
unfoldable pub send_agent_disconnect : Setting → ℕ → Notice → Worker → Worker × Result (Unit {0})
send_agent_disconnect s status_code notice w =
    send_frame s (agent_disconnect status_code (s.render notice)) (record w { goodbye_sent = true })

-- `disconnect`: only the first call sends.
unfoldable pub disconnect_once : Setting → ℕ → Notice → Worker → Worker
disconnect_once s status_code notice w =
    if w.disconnected
    then w
    else record (send_agent_disconnect s status_code notice w).0 { disconnected = true }

-- `close`
unfoldable pub close_worker : Setting → Worker → Worker
close_worker s w = record w { conn = (close_conn s.net w.conn).0 }

-- `frameLimit`
unfoldable pub frame_limit : Worker → ℕ
frame_limit w = if w.max_frame == 0 then max_frame_size else w.max_frame

-- `readTimeout`
unfoldable pub read_timeout : Setting → Worker → ℤ
read_timeout s w = if not w.ready then s.config.timeouts.handshake else s.config.timeouts.idle

-- The request that `processNotifyFrame` hands to the handler, and the ACK of its actions.
abbrev pub request_of : Worker → Frame → Request
request_of w f = record new_request {
  engine_id = w.engine_id;
  stream_id = f.stream_id;
  frame_id = f.frame_id;
  messages = f.messages;
}

abbrev pub ack_frame : Frame → List Action → Frame
ack_frame f actions = record new_frame {
  type = type_agent_ack;
  stream_id = f.stream_id;
  frame_id = f.frame_id;
  actions = actions;
}

-- FRAME-LENGTH of a buffer, `uint32(n - frameLengthPrefix)`.
abbrev pub length_field : List ℕ → ℕ
length_field bytes = (length bytes - frame_length_prefix) % 2 ^ 32

-- `writeFrame`
unfoldable pub write_ack : Setting → Frame → Worker → Worker × Result (Unit {0})
unfolding to_buffer frame_limit
write_ack s f w =
    let sent : Worker × Result (Unit {0}) = elim (to_buffer f) [
      | ok bytes ↦
          if ltb (frame_limit w) (length_field bytes)
          then (w, err (frame_too_big (length_field bytes) (frame_limit w)))
          else send_bytes s bytes w
      | err e ↦ (w, err (cannot_encode e))
      | fault x ↦ (record w { panicked = true }, fault x)
    ] in
    if w.goodbye_sent then (w, err after_disconnect) else sent
