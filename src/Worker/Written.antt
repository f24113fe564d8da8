-- ===== src/Worker/Written.antt =====
-- The ACKs among the frames of a connection, and the NOTIFYs that they answer.
use spop.Base.{
  ℕ, ◌≡◌, ◌≢◌, refl, sym, subst, ◌∙◌, Bool, true, false, List, [], ◌∷◌, ◌⊎◌, inl, inr, Result, ok,
  err, fault, arith, if◌then◌else◌, ltb, after_disconnect, frame_too_big, cannot_encode,
}
use spop.Action.{Action}
use spop.Transport.Calls.{writes, write_frame-Sends}
use spop.Frame.{Frame, type_agent_ack}
use spop.Frame.Encode.{to_buffer}
use spop.Handshake.{Notice}
use spop.Worker.{
  Setting, Worker, send_bytes, send_frame, send_agent_hello, send_agent_disconnect, disconnect_once,
  write_ack, ack_frame, frame_limit, length_field, agent_hello, agent_disconnect,
}
use spop.Worker.Answering.{answer-write_ack}
use spop.Worker.Machine.{answer}
use spop.Worker.Sending.{type_at, Yields-ok, to_buffer-Yields}

-- The ACKs among frames, the latest first, answer these NOTIFYs, each with actions that may be left
-- for its NOTIFY.
pub data Acks (leaves : Frame → List Action → Type 0) : List (List ℕ) → List Frame → Type 0 where
  no_frames : Acks leaves [] []
  an_ack :
      {ws : List (List ℕ)} {fs : List Frame} (f ack : Frame) (bytes : List ℕ)
      → ack.type ≡ type_agent_ack
      → ack.stream_id ≡ f.stream_id
      → ack.frame_id ≡ f.frame_id
      → leaves f ack.actions
      → to_buffer ack ≡ ok bytes
      → Acks leaves ws fs
      → Acks leaves (bytes ∷ ws) (f ∷ fs)
  another :
      {ws : List (List ℕ)} {fs : List Frame} (bytes : List ℕ)
      → type_at bytes ≢ type_agent_ack
      → Acks leaves ws fs
      → Acks leaves (bytes ∷ ws) fs

-- The frame was written, or nothing was.
abbrev pub Adds : Frame → Worker → Worker → Type 0
Adds f w w' =
    (writes w'.conn.calls ≡ writes w.conn.calls)
    ⊎ ((bytes : List ℕ) × (to_buffer f ≡ ok bytes)
        × (writes w'.conn.calls ≡ bytes ∷ writes w.conn.calls))

-- No ACK was written.
abbrev pub Quiet : Worker → Worker → Type 1
Quiet w w' =
    (leaves : Frame → List Action → Type 0) (fs : List Frame)
    → Acks leaves (writes w.conn.calls) fs
    → Acks leaves (writes w'.conn.calls) fs

pub same-Quiet : (w w' : Worker) → writes w'.conn.calls ≡ writes w.conn.calls → Quiet w w'
same-Quiet w w' e leaves fs h = subst (λ ws. Acks leaves ws fs) (sym e) h

Adds-Quiet : (f : Frame) (w w' : Worker) → f.type ≢ type_agent_ack → Adds f w w' → Quiet w w'
Adds-Quiet f w w' other (inl e) = same-Quiet w w' e
Adds-Quiet f w w' other (inr (bytes, e, p)) = λ leaves fs h.
    let t : type_at bytes ≡ f.type = Yields-ok (to_buffer-Yields f) e in
    subst (λ ws. Acks leaves ws fs) (sym p) (another bytes (λ q. other (sym t ∙ q)) h)

send_bytes-Adds :
    (s : Setting) (f : Frame) (bytes : List ℕ) (w : Worker)
    → to_buffer f ≡ ok bytes
    → Adds f w (send_bytes s bytes w).0
unfolding send_bytes
send_bytes-Adds s f bytes w e =
    elim (write_frame-Sends s.net (s.clock w.conn.calls) bytes w.conn).grows [
      | inl p ↦ inl p
      | inr p ↦ inr (bytes, e, p)
    ]

send_frame-Adds : (s : Setting) (f : Frame) (w : Worker) → Adds f w (send_frame s f w).0
unfolding send_frame
send_frame-Adds s f w = go (to_buffer f) refl
  where
    outcome : Result (List ℕ) → Worker × Result (Unit {0})
    outcome (ok bytes) = send_bytes s bytes w
    outcome (err e) = (w, err e)
    outcome (fault x) = (record w { panicked = true }, fault x)

    go : (r : Result (List ℕ)) → to_buffer f ≡ r → Adds f w (outcome r).0
    go (ok bytes) e = send_bytes-Adds s f bytes w e
    go (err x) e = inl refl
    go (fault x) e = inl refl

write_ack-Adds : (s : Setting) (f : Frame) (w : Worker) → Adds f w (write_ack s f w).0
unfolding write_ack
write_ack-Adds s f w = outer w.goodbye_sent
  where
    within : List ℕ → Bool → Worker × Result (Unit {0})
    within bytes b =
        if b
        then (w, err (frame_too_big (length_field bytes) (frame_limit w)))
        else send_bytes s bytes w

    sent : Result (List ℕ) → Worker × Result (Unit {0})
    sent (ok bytes) = within bytes (ltb (frame_limit w) (length_field bytes))
    sent (err e) = (w, err (cannot_encode e))
    sent (fault x) = (record w { panicked = true }, fault x)

    inner : (bytes : List ℕ) (b : Bool) → to_buffer f ≡ ok bytes → Adds f w (within bytes b).0
    inner bytes true e = inl refl
    inner bytes false e = send_bytes-Adds s f bytes w e

    go : (r : Result (List ℕ)) → to_buffer f ≡ r → Adds f w (sent r).0
    go (ok bytes) e = inner bytes (ltb (frame_limit w) (length_field bytes)) e
    go (err x) e = inl refl
    go (fault x) e = inl refl

    outer : (b : Bool) → Adds f w (if b then (w, err after_disconnect) else sent (to_buffer f)).0
    outer true = inl refl
    outer false = go (to_buffer f) refl

pub answer-Adds :
    (s : Setting) (f : Frame) (actions : List Action) (w : Worker)
    → Adds (ack_frame f actions) w (answer s f actions w).0
answer-Adds s f actions w =
    subst (Adds (ack_frame f actions) w) (sym (answer-write_ack s f actions w))
      (write_ack-Adds s (ack_frame f actions) w)

pub send_agent_hello-Quiet :
    (s : Setting) (size : ℕ) (w : Worker) → Quiet w (send_agent_hello s size w).0
unfolding send_agent_hello
send_agent_hello-Quiet s size w =
    Adds-Quiet (agent_hello size) w (send_frame s (agent_hello size) w).0 (λ e. omega (arith, e))
      (send_frame-Adds s (agent_hello size) w)

pub send_agent_disconnect-Quiet :
    (s : Setting) (code : ℕ) (notice : Notice) (w : Worker)
    → Quiet w (send_agent_disconnect s code notice w).0
unfolding send_agent_disconnect
send_agent_disconnect-Quiet s code notice w =
    let f : Frame = agent_disconnect code (s.render notice) in
    Adds-Quiet f w (send_frame s f (record w { goodbye_sent = true })).0 (λ e. omega (arith, e))
      (send_frame-Adds s f (record w { goodbye_sent = true }))

pub disconnect_once-Quiet :
    (s : Setting) (code : ℕ) (notice : Notice) (w : Worker)
    → Quiet w (disconnect_once s code notice w)
unfolding disconnect_once
disconnect_once-Quiet s code notice w = go w.disconnected
  where
    go :
        (b : Bool)
        → Quiet w (
            if b
            then w
            else record (send_agent_disconnect s code notice w).0 { disconnected = true })
    go true = λ leaves fs h. h
    go false = send_agent_disconnect-Quiet s code notice w
