-- ===== src/Worker/Sizes.antt =====
-- The frame size that a connection agreed on, and what its ACKs take of it.
use spop.Base.{
  ℕ, ◌-◌, ◌≤◌, ◌≡◌, refl, sym, subst, ap, Bool, true, false, List, Option, none, some, inl, inr,
  Result, ok, err, fault, arith, if◌then◌else◌, ltb, ltb→le, after_disconnect, cannot_encode,
  frame_too_big, Bool-cases,
}
use spop.Action.{Action}
use spop.Request.{Request}
use spop.Frame.{Frame, max_frame_size}
use spop.Frame.Read.{Source}
use spop.Handshake.{min_frame_size}
use spop.Frame.Encode.{to_buffer}
use spop.Worker.{
  Setting, Worker, slot_limit, close_worker, frame_limit, send_bytes, length_field, write_ack,
}
use spop.Worker.Loop.{
  Phase, arming, reading, dispatching, parked, starting, draining, closing, stopped,
}
use spop.Worker.Answering.{answer_same}
use spop.Worker.Machine.{
  Task, Machine, answer, release_slot, loop_turn, Step, turns, unparks, gives_up, drains, answers,
  reports, tears_down, leaves, begins_drain, pokes, closes_all, Reach, start, onwards,
}
use spop.Worker.Turns.{
  IsLimit, arm_turn-Turned, read_turn-Turned, disconnect_once_max_frame, expire-max_frame,
}
use spop.Worker.Dispatch.{dispatch-Turned}
use spop.Worker.Session.{Inv, Reach-Inv}

answer_max_frame :
    (s : Setting) (f : Frame) (actions : List Action) (w : Worker)
    → (answer s f actions w).0.max_frame ≡ w.max_frame
answer_max_frame s f actions w = ap (λ v. v.max_frame) (answer_same s f actions w)

release_slot_max_frame : (s : Setting) (w : Worker) → (release_slot s w).max_frame ≡ w.max_frame
unfolding release_slot
release_slot_max_frame s w = go (slot_limit s.config)
  where
    released : Option ℕ → Worker
    released none = w
    released (some n) = record w { slots = w.slots - 1 }

    go : (o : Option ℕ) → (released o).max_frame ≡ w.max_frame
    go none = refl
    go (some n) = refl

turn-IsLimit :
    (s : Setting) (later : Bool) (w : Worker) (src : Source) (p : Phase) (tasks : List Task)
    → Inv (record { worker = w; source = src; phase = p; tasks = tasks })
    → IsLimit w.max_frame
    → IsLimit
        (loop_turn s later
          (record { worker = w; source = src; phase = p; tasks = tasks })).worker.max_frame
unfolding loop_turn close_worker
turn-IsLimit s later w src arming tasks i h = (arm_turn-Turned s later w i.in_order).keeps_limit h
turn-IsLimit s later w src reading tasks i h = (read_turn-Turned s src w i.in_order).keeps_limit h
turn-IsLimit s later w src (dispatching f) tasks i h =
    (dispatch-Turned s f w i.in_order).keeps_limit h
turn-IsLimit s later w src (starting f) tasks i h = h
turn-IsLimit s later w src (closing r) tasks i h = h
turn-IsLimit s later w src (parked f) tasks i h = h
turn-IsLimit s later w src draining tasks i h = h
turn-IsLimit s later w src (stopped r) tasks i h = h

Step-IsLimit :
    {s : Setting} {handler : Request → List Action → Type 0} {m m' : Machine}
    → Inv m
    → IsLimit m.worker.max_frame
    → Step s handler m m'
    → IsLimit m'.worker.max_frame
unfolding close_worker
Step-IsLimit {s} {m = m} i h (turns later _) =
    turn-IsLimit s later m.worker m.source m.phase m.tasks i h
Step-IsLimit i h (unparks f n _ p e room) = h
Step-IsLimit i h (gives_up f _ p d) = h
Step-IsLimit {s} {m = m} i h (drains _ p e) =
    subst IsLimit (sym (disconnect_once_max_frame s _ _ m.worker)) h
Step-IsLimit {s} {m = m} i h (answers f before after actions _ e _) =
    subst IsLimit (sym (answer_max_frame s f actions m.worker)) h
Step-IsLimit {s} {m = m} i h (reports code notice before after _ e) =
    subst IsLimit (sym (disconnect_once_max_frame s code notice m.worker)) h
Step-IsLimit i h (tears_down before after _ e) = h
Step-IsLimit {s} {m = m} i h (leaves before after _ e) =
    subst IsLimit (sym (release_slot_max_frame s m.worker)) h
Step-IsLimit i h begins_drain = h
Step-IsLimit {s} {m = m} i h (pokes d) = subst IsLimit (sym (expire-max_frame s m.worker)) h
Step-IsLimit i h (closes_all d) = h

Reach-IsLimit :
    {s : Setting} {handler : Request → List Action → Type 0} {src : Source} {m : Machine}
    → Reach s handler src m
    → IsLimit m.worker.max_frame
Reach-IsLimit start = inl refl
Reach-IsLimit (onwards r st) = Step-IsLimit (Reach-Inv r) (Reach-IsLimit r) st

frame_limit_bounds :
    (w : Worker)
    → IsLimit w.max_frame
    → (min_frame_size ≤ frame_limit w) × (frame_limit w ≤ max_frame_size)
unfolding frame_limit
frame_limit_bounds w (inl e) = rw e (omega arith, omega arith)
frame_limit_bounds w (inr (lo, hi)) = ground arith

-- The bytes of an ACK that is handed over take no more than the limit of the connection.
write_ack_within :
    (s : Setting) (f : Frame) (w : Worker)
    → (write_ack s f w).1 ≡ ok tt
    → (bytes : List ℕ) × (to_buffer f ≡ ok bytes) × (length_field bytes ≤ frame_limit w)
unfolding write_ack
write_ack_within s f w e = outer w.goodbye_sent e
  where
    sent : Result (List ℕ) → Worker × Result (Unit {0})
    sent (ok bytes) =
        if ltb (frame_limit w) (length_field bytes)
        then (w, err (frame_too_big (length_field bytes) (frame_limit w)))
        else send_bytes s bytes w
    sent (err e) = (w, err (cannot_encode e))
    sent (fault x) = (record w { panicked = true }, fault x)

    inner :
        (r : Result (List ℕ))
        → to_buffer f ≡ r
        → (sent r).1 ≡ ok tt
        → (bytes : List ℕ) × (to_buffer f ≡ ok bytes) × (length_field bytes ≤ frame_limit w)
    inner (ok bytes) p q = elim (Bool-cases (ltb (frame_limit w) (length_field bytes))) [
      | inl big ↦ cc (rw big at q)
      | inr small ↦ (bytes, p, ltb→le (frame_limit w) (length_field bytes) small)
    ]
    inner (err e) p q = cc
    inner (fault x) p q = cc

    outer :
        (b : Bool)
        → (if b then (w, err after_disconnect) else sent (to_buffer f)).1 ≡ ok tt
        → (bytes : List ℕ) × (to_buffer f ≡ ok bytes) × (length_field bytes ≤ frame_limit w)
    outer true q = cc
    outer false q = inner (to_buffer f) refl q

-- At every moment of a connection the limit for frames in either direction is from 256 bytes to
-- MaxFrameSize, and an ACK that is written without an error was encoded, with a FRAME-LENGTH
-- within that limit.
pub Reach-Within :
    (s : Setting) (handler : Request → List Action → Type 0) (src : Source) (m : Machine)
    (f : Frame)
    → Reach s handler src m
    → (min_frame_size ≤ frame_limit m.worker)
      × (frame_limit m.worker ≤ max_frame_size)
      × ((write_ack s f m.worker).1 ≡ ok tt
          → (bytes : List ℕ) × (to_buffer f ≡ ok bytes)
            × (length_field bytes ≤ frame_limit m.worker))
Reach-Within s handler src m f r =
    let (lo, hi) = frame_limit_bounds m.worker (Reach-IsLimit r) in
    (lo, hi, write_ack_within s f m.worker)
