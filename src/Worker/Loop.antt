-- ===== src/Worker/Loop.antt =====
-- worker/worker.go: the read loop, `run` and `dispatch`, one turn of it at a time. Where the loop
-- waits, or lets another goroutine in, the turn ends in a phase.
use spop.Base.{
  ℕ, suc, ◌+◌, Bool, true, false, not, ◌&&◌, Option, none, some, Result, ok, err, fault, Error,
  ◌==◌, if◌then◌else◌, ℤ, pos, read_error, deadline_exceeded, end_of_file, frame_too_big,
}
use spop.Transport.{read_deadline}
use spop.Frame.{
  Frame, new_frame, type_haproxy_hello, type_haproxy_disconnect, type_notify, from_haproxy,
}
use spop.Frame.Read.{Source, read_limit}
use spop.Handshake.{
  Notice, Negotiation, agreed, disconnect, negotiate, status_normal, status_timeout,
  status_frame_too_big, status_invalid_frame, already_ready, disconnect_before_handshake,
  notify_before_handshake, unexpected_type, closed_by_server, timed_out, invalid_frame, of_error,
}
use spop.Worker.{
  Setting, Worker, slot_limit, send_agent_hello, send_agent_disconnect, disconnect_once,
  frame_limit, read_timeout,
}

-- The errors of `run`.
pub data RunError : Type 0 where
  deadline_not_set : Error → RunError
  frame_not_read : Error → RunError
  handshake_repeated : RunError
  handshake_failed : ℕ → Notice → RunError
  hello_not_sent : Error → RunError
  not_ready_for_disconnect : RunError
  disconnect_not_sent : Error → RunError
  not_ready_for_notify : RunError
  unexpected_frame : ℕ → RunError

-- Where the read loop stands: before arming the deadline, before the read, with a frame to
-- dispatch, waiting for a slot for a NOTIFY, waiting for its handlers, before the deferred close
-- with run's result, and behind it.
pub data Phase : Type 0 where
  arming reading : Phase
  dispatching : Frame → Phase
  parked : Frame → Phase
  starting : Frame → Phase
  draining : Phase
  closing : Option RunError → Phase
  stopped : Option RunError → Phase

-- The deadline that `armReadDeadline` sets when no drain has begun.
unfoldable pub deadline_of : ℕ → ℤ → Option ℕ
deadline_of now (pos (suc d)) = some (now + suc d)
deadline_of now _ = none

unfoldable pub set_deadline : Setting → Option ℕ → Worker → Worker × Option Error
set_deadline s t w = let (conn, e) = read_deadline s.net t w.conn in (record w { conn = conn }, e)

-- `SetReadDeadline(time.Now())`
unfoldable pub expire : Setting → Worker → Worker × Option Error
unfolding set_deadline
expire s w = set_deadline s (some (s.clock w.conn.calls)) w

-- `armReadDeadline`; `later` tells that a drain has begun between its two checks.
unfoldable pub arm_read_deadline : Setting → Bool → Worker → Worker × Option Error
unfolding expire deadline_of
arm_read_deadline s later w =
    let (armed, e) = set_deadline s (deadline_of (s.clock w.conn.calls) (read_timeout s w)) w in
    let rearmed : Worker × Option Error = elim e [
      | some refused ↦ (armed, some refused)
      | none ↦ if later then expire s (record armed { done = true }) else (armed, none)
    ] in
    if w.done then expire s w else rearmed

unfoldable pub arm_turn : Setting → Bool → Worker → Worker × Phase
arm_turn s later w =
    let (w', e) = arm_read_deadline s later w in
    elim e [ none ↦ (w', reading) | some refused ↦ (w', closing (some (deadline_not_set refused))) ]

-- `errors.Is(err, os.ErrDeadlineExceeded)` and `errors.Is(err, frame.ErrFrameTooBig)`
unfoldable pub is_deadline : Error → Bool
is_deadline deadline_exceeded = true
is_deadline (read_error e) = is_deadline e
is_deadline _ = false

unfoldable pub is_too_big : Error → Bool
is_too_big (frame_too_big size limit) = true
is_too_big (read_error e) = is_too_big e
is_too_big _ = false

unfoldable pub is_eof : Error → Bool
is_eof end_of_file = true
is_eof _ = false

-- What `run` does with an error of `ReadLimit`.
unfoldable pub read_failed : Setting → Error → Worker → Worker × Phase
unfolding is_deadline is_too_big is_eof
read_failed s e w =
    if is_eof e
    then (w, closing none)
    else if is_deadline e && w.done
    then (w, draining)
    else if is_deadline e
    then (disconnect_once s status_timeout timed_out w, closing (some (frame_not_read e)))
    else if is_too_big e
    then (disconnect_once s status_frame_too_big (of_error e) w, closing (some (frame_not_read e)))
    else (disconnect_once s status_invalid_frame invalid_frame w, closing (some (frame_not_read e)))

-- One read of `run`.
unfoldable pub read_turn : Setting → Source → Worker → Worker × Source × Phase
read_turn s src w = elim (read_limit new_frame src (frame_limit w) (some from_haproxy)) [
  | ok (f, src') ↦ (w, src', dispatching f)
  | err e ↦ let (w', phase) = read_failed s e w in (w', src, phase)
  | fault x ↦ (record w { panicked = true }, src, closing none)
]

-- The HAPROXY-HELLO that was agreed on.
unfoldable pub hello_agreed : Setting → Frame → ℕ → Worker → Worker × Phase
hello_agreed s f size w =
    let (w', r) =
      send_agent_hello s size (record w { max_frame = size; engine_id = f.engine_id }) in
    elim r [
      | ok _ ↦ if f.healthcheck then (w', closing none) else (record w' { ready = true }, arming)
      | err e ↦ (w', closing (some (hello_not_sent e)))
      | fault x ↦ (w', closing none)
    ]

unfoldable pub hello_answered : Setting → Frame → Negotiation → Worker → Worker × Phase
hello_answered s f (agreed size) w = hello_agreed s f size w
hello_answered s f (disconnect status_code notice) w =
    (disconnect_once s status_code notice w, closing (some (handshake_failed status_code notice)))

unfoldable pub take_hello : Setting → Frame → Worker → Worker × Phase
unfolding hello_answered hello_agreed
take_hello s f w =
    if w.ready
    then (disconnect_once s status_invalid_frame already_ready w, closing (some handshake_repeated))
    else hello_answered s f (negotiate f) w

unfoldable pub disconnect_sent : Worker × Result (Unit {0}) → Worker × Phase
disconnect_sent (w, ok _) = (w, closing none)
disconnect_sent (w, err e) = (w, closing (some (disconnect_not_sent e)))
disconnect_sent (w, fault x) = (w, closing none)

unfoldable pub take_disconnect : Setting → Frame → Worker → Worker × Phase
unfolding disconnect_sent
take_disconnect s f w =
    if not w.ready
    then (
      disconnect_once s status_invalid_frame disconnect_before_handshake w,
      closing (some not_ready_for_disconnect),
    )
    else disconnect_sent (send_agent_disconnect s status_normal closed_by_server w)

-- `acquireSlot`, up to its select.
unfoldable pub acquire_slot : Setting → Frame → Worker → Phase
acquire_slot s f w = elim (slot_limit s.config) [
  | none ↦ starting f
  | some limit ↦ if w.done then draining else parked f
]

unfoldable pub take_notify : Setting → Frame → Worker → Worker × Phase
unfolding acquire_slot
take_notify s f w =
    if not w.ready
    then (
      disconnect_once s status_invalid_frame notify_before_handshake w,
      closing (some not_ready_for_notify),
    )
    else (w, acquire_slot s f w)

-- `dispatch`
unfoldable pub dispatch : Setting → Frame → Worker → Worker × Phase
unfolding take_hello take_disconnect take_notify
dispatch s f w =
    if f.type == type_haproxy_hello
    then take_hello s f w
    else if f.type == type_haproxy_disconnect
    then take_disconnect s f w
    else if f.type == type_notify
    then take_notify s f w
    else (
      disconnect_once s status_invalid_frame unexpected_type w,
      closing (some (unexpected_frame f.type)),
    )
