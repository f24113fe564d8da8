-- ===== src/Worker/Lands.antt =====
-- The write of an ACK that fails leaves a mark: its handler reports it, or the worker is done for.
use spop.Base.{
  ℕ, suc, zero, ◌+◌, ◌≡◌, ◌≢◌, refl, ap, Bool, true, false, List, ◌∷◌, length, ℤ, pos, negsuc,
  Option, none, some, Result, ok, err, fault, Error, Fault, after_disconnect, frame_too_big,
  cannot_encode, connection_closed, short_write, arith, if◌then◌else◌, ltb, ◌==◌,
}
use spop.Action.{Action}
use spop.Frame.{Frame}
use spop.Frame.Encode.{to_buffer}
use spop.Transport.{
  Call, NetConn, Conn, set_write_deadline, write_before, write_within, write_payload, after_write,
  write_all, write_frame,
}
use spop.Transport.Calls.{writes, write_frame-Sends}
use spop.Worker.{
  Setting, Worker, as_result, send_bytes, write_ack, ack_frame, frame_limit, length_field,
}
use spop.Worker.Machine.{Task, reporting, leaving, report_of, answer}

-- The net.Conn's errors are not the worker's own `errAfterDisconnect`.
abbrev pub OwnErrors : NetConn → Type 0
OwnErrors net =
    ((calls : List Call) (frame : List ℕ) → (net.on_write calls frame).1 ≢ some after_disconnect)
    × ((calls : List Call) (t : Option ℕ) → net.on_write_deadline calls t ≢ some after_disconnect)

write_all-own :
    (net : NetConn) (frame : List ℕ) (calls : List Call)
    → OwnErrors net
    → (write_all frame net calls).1 ≢ some after_disconnect
unfolding write_all after_write
write_all-own net frame calls own = go (net.on_write calls frame) (own.0 calls frame)
  where
    within : (b : Bool) → (if b then none else some short_write) ≢ some after_disconnect
    within true p = cc
    within false p = cc

    go :
        (r : ℕ × Option Error)
        → r.1 ≢ some after_disconnect
        → after_write (length frame) r ≢ some after_disconnect
    go (n, some e) h = h
    go (n, none) h = within (n == length frame)

write_before-own :
    (net : NetConn) (deadline : ℕ) (frame : List ℕ) (c : Conn)
    → OwnErrors net
    → (write_before net deadline (write_all frame) c).1 ≢ some after_disconnect
unfolding write_before
write_before-own net deadline frame c own =
    go (net.on_write_deadline c.calls (some deadline)) (own.1 c.calls (some deadline))
  where
    armed : List Call
    armed = set_write_deadline (some deadline) ∷ c.calls

    outcome : Option Error → Conn × Option Error
    outcome (some refused) = (record c { calls = armed }, some refused)
    outcome none = (
      record c { calls = set_write_deadline none ∷ (write_all frame net armed).0 },
      (write_all frame net armed).1,
    )

    go : (r : Option Error) → r ≢ some after_disconnect → (outcome r).1 ≢ some after_disconnect
    go (some refused) h = h
    go none h = write_all-own net frame armed own

write_within-own :
    (net : NetConn) (now : ℕ) (frame : List ℕ) (d : ℤ) (c : Conn)
    → OwnErrors net
    → (write_within net now d (write_all frame) c).1 ≢ some after_disconnect
unfolding write_within
write_within-own net now frame (pos (suc d)) c own = write_before-own net (now + suc d) frame c own
write_within-own net now frame (pos zero) c own = write_all-own net frame c.calls own
write_within-own net now frame (negsuc d) c own = write_all-own net frame c.calls own

write_frame-own :
    (net : NetConn) (now : ℕ) (frame : List ℕ) (c : Conn)
    → OwnErrors net
    → (write_frame net now frame c).1 ≢ some after_disconnect
unfolding write_frame write_payload
write_frame-own net now frame c own = go c.closed
  where
    go :
        (b : Bool)
        → (if b
            then (c, some connection_closed)
            else write_within net now c.write_timeout (write_all frame) c).1
          ≢ some after_disconnect
    go true = λ p. cc
    go false = write_within-own net now frame c.write_timeout c own

-- The ACK was written, or there is an error to report, or the worker has panicked.
record Tells (w : Worker) (out : Worker × Result (Unit {0})) : Type 0 where
  wrote : out.1 ≡ ok tt → (bytes : List ℕ) × (writes out.0.conn.calls ≡ bytes ∷ writes w.conn.calls)
  own : out.1 ≢ err after_disconnect
  stuck : (x : Fault) → out.1 ≡ fault x → out.0.panicked ≡ true

send_bytes-Tells :
    (s : Setting) (bytes : List ℕ) (w : Worker) → OwnErrors s.net → Tells w (send_bytes s bytes w)
unfolding send_bytes as_result
send_bytes-Tells s bytes w h =
    go (write_frame s.net (s.clock w.conn.calls) bytes w.conn)
      (λ e. ((write_frame-Sends s.net (s.clock w.conn.calls) bytes w.conn).delivers e).0)
      (write_frame-own s.net (s.clock w.conn.calls) bytes w.conn h)
  where
    go :
        (out : Conn × Option Error)
        → (out.1 ≡ none → writes out.0.calls ≡ bytes ∷ writes w.conn.calls)
        → out.1 ≢ some after_disconnect
        → Tells w (record w { conn = out.0 }, as_result out.1)
    go (c, none) d n = record { wrote = λ e. (bytes, d refl); own = λ p. cc; stuck = λ x p. cc }
    go (c, some e) d n = record { wrote = λ p. cc; own = λ p. n (cc); stuck = λ x p. cc }

write_ack-Tells :
    (s : Setting) (f : Frame) (w : Worker)
    → OwnErrors s.net
    → w.goodbye_sent ≡ false
    → Tells w (write_ack s f w)
unfolding write_ack
write_ack-Tells s f w h silent = go w.goodbye_sent silent
  where
    sent : Result (List ℕ) → Worker × Result (Unit {0})
    sent (ok bytes) =
        if ltb (frame_limit w) (length_field bytes)
        then (w, err (frame_too_big (length_field bytes) (frame_limit w)))
        else send_bytes s bytes w
    sent (err e) = (w, err (cannot_encode e))
    sent (fault x) = (record w { panicked = true }, fault x)

    within :
        (b : Bool) (bytes : List ℕ)
        → Tells w (
            if b
            then (w, err (frame_too_big (length_field bytes) (frame_limit w)))
            else send_bytes s bytes w)
    within true bytes = record { wrote = λ p. cc; own = λ p. cc; stuck = λ x p. cc }
    within false bytes = send_bytes-Tells s bytes w h

    try : (r : Result (List ℕ)) → Tells w (sent r)
    try (ok bytes) = within (ltb (frame_limit w) (length_field bytes)) bytes
    try (err e) = record { wrote = λ p. cc; own = λ p. cc; stuck = λ x p. cc }
    try (fault y) = record { wrote = λ p. cc; own = λ p. cc; stuck = λ x p. refl }

    go :
        (b : Bool)
        → b ≡ false
        → Tells w (if b then (w, err after_disconnect) else sent (to_buffer f))
    go true e = cc
    go false e = try (to_buffer f)

-- A handler with a report to make.
abbrev pub fails : Task → ℕ
fails (reporting status_code notice) = 1
fails _ = 0

report_of-fails : (e : Error) → e ≢ after_disconnect → fails (report_of e) ≡ 1
unfolding report_of
report_of-fails after_disconnect h = elim (h refl) [ ]
report_of-fails (frame_too_big size limit) h = refl
report_of-fails (cannot_encode e) h = refl
report_of-fails e h = refl

pub answer-lands :
    (s : Setting) (f : Frame) (actions : List Action) (w : Worker)
    → OwnErrors s.net
    → w.goodbye_sent ≡ false
    → (answer s f actions w).0.panicked ≡ false
    → fails (answer s f actions w).1 ≡ 0
    → (bytes : List ℕ) × (writes (answer s f actions w).0.conn.calls ≡ bytes ∷ writes w.conn.calls)
unfolding answer
answer-lands s f actions w own silent =
    go (write_ack s (ack_frame f actions) w) (write_ack-Tells s (ack_frame f actions) w own silent)
  where
    outcome : Worker × Result (Unit {0}) → Worker × Task
    outcome (w', ok _) = (w', leaving)
    outcome (w', err e) = (w', report_of e)
    outcome (w', fault x) = (w', leaving)

    go :
        (out : Worker × Result (Unit {0}))
        → Tells w out
        → (outcome out).0.panicked ≡ false
        → fails (outcome out).1 ≡ 0
        → (bytes : List ℕ) × (writes (outcome out).0.conn.calls ≡ bytes ∷ writes w.conn.calls)
    go (w', ok _) h live fine = h.wrote refl
    go (w', err e) h live fine =
        let fatal : fails (report_of e) ≡ 1 = report_of-fails e (λ p. h.own (ap err p)) in
        let no_error : ⊥ = omega (arith, fatal, fine) in elim no_error [ ]
    go (w', fault x) h live fine = let stuck = h.stuck x refl in cc
