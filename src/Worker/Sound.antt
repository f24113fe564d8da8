-- ===== src/Worker/Sound.antt =====
-- What the worker encodes never panics.
use spop.Base.{
  ap, ◌∙◌, ℕ, ◌≡◌, refl, Bool, true, false, List, Result, ok, err, fault, All, IsU32, IsU64, Safely,
  arith, if◌then◌else◌, ltb, cannot_encode, frame_too_big, after_disconnect,
}
use spop.TypedData.{IsString}
use spop.Kv.{add}
use spop.Action.{Action}
use spop.Action.Encoding.{HasGoValues}
use spop.Request.{Request}
use spop.Frame.{Frame}
use spop.Frame.Encode.{to_buffer}
use spop.Frame.Encoding.{IsEncodable, to_buffer-Safely}
use spop.Handshake.{Notice}
use spop.Worker.{
  Setting, Worker, send_bytes, send_frame, agent_hello, agent_disconnect, send_agent_hello,
  send_agent_disconnect, disconnect_once, write_ack, ack_frame, frame_limit, length_field,
}
use spop.Worker.Answering.{answer-write_ack}
use spop.Worker.Machine.{answer}

-- The texts that `fmt` makes are strings, and a handler leaves values of Go's types.
abbrev pub MakesStrings : Setting → Type 0
MakesStrings s = (notice : Notice) → IsString (s.render notice)

abbrev pub LeavesGoValues : (Request → List Action → Type 0) → Type 0
LeavesGoValues handler =
    (req : Request) (actions : List Action) → handler req actions → All HasGoValues actions

-- The identifiers of a frame fit their type.
abbrev pub HasWords : Frame → Type 0
HasWords f = IsU64 f.stream_id × IsU64 f.frame_id

agent_hello-IsEncodable : (size : ℕ) → IsU32 size → IsEncodable (agent_hello size)
unfolding add
agent_hello-IsEncodable size h = record {
  stream_word = omega arith;
  frame_word = omega arith;
  items = ((omega arith, omega arith), ((omega arith, h), ((omega arith, omega arith), tt)));
  go_actions = tt;
}

agent_disconnect-IsEncodable :
    (code : ℕ) (message : List ℕ)
    → IsU32 code
    → IsString message
    → IsEncodable (agent_disconnect code message)
unfolding add
agent_disconnect-IsEncodable code message h m = record {
  stream_word = omega arith;
  frame_word = omega arith;
  items = ((omega arith, h), ((omega arith, m), tt));
  go_actions = tt;
}

send_frame_panicked :
    (s : Setting) (f : Frame) (w : Worker)
    → IsEncodable f
    → (send_frame s f w).0.panicked ≡ w.panicked
unfolding send_frame send_bytes
send_frame_panicked s f w h = go (to_buffer f) (to_buffer-Safely f h)
  where
    outcome : Result (List ℕ) → Worker × Result (Unit {0})
    outcome (ok bytes) = send_bytes s bytes w
    outcome (err e) = (w, err e)
    outcome (fault x) = (record w { panicked = true }, fault x)

    go : (r : Result (List ℕ)) → Safely (λ b. Unit {0}) r → (outcome r).0.panicked ≡ w.panicked
    go (ok bytes) h = refl
    go (err e) h = refl
    go (fault x) h = elim h [ ]

pub send_agent_hello_panicked :
    (s : Setting) (size : ℕ) (w : Worker)
    → IsU32 size
    → (send_agent_hello s size w).0.panicked ≡ w.panicked
unfolding send_agent_hello
send_agent_hello_panicked s size w h =
    send_frame_panicked s (agent_hello size) w (agent_hello-IsEncodable size h)

pub send_agent_disconnect_panicked :
    (s : Setting) (code : ℕ) (notice : Notice) (w : Worker)
    → MakesStrings s
    → IsU32 code
    → (send_agent_disconnect s code notice w).0.panicked ≡ w.panicked
unfolding send_agent_disconnect
send_agent_disconnect_panicked s code notice w t h =
    send_frame_panicked s (agent_disconnect code (s.render notice))
      (record w { goodbye_sent = true })
      (agent_disconnect-IsEncodable code (s.render notice) h (t notice))

pub disconnect_once_panicked :
    (s : Setting) (code : ℕ) (notice : Notice) (w : Worker)
    → MakesStrings s
    → IsU32 code
    → (disconnect_once s code notice w).panicked ≡ w.panicked
unfolding disconnect_once
disconnect_once_panicked s code notice w t h = go w.disconnected
  where
    go :
        (b : Bool)
        → (if b
            then w
            else record (send_agent_disconnect s code notice w).0 { disconnected = true }).panicked
          ≡ w.panicked
    go true = refl
    go false = send_agent_disconnect_panicked s code notice w t h

write_ack_panicked :
    (s : Setting) (f : Frame) (w : Worker)
    → IsEncodable f
    → (write_ack s f w).0.panicked ≡ w.panicked
unfolding write_ack send_bytes
write_ack_panicked s f w h = outer w.goodbye_sent
  where
    within : List ℕ → Bool → Worker × Result (Unit {0})
    within bytes b =
        if b
        then (w, err (frame_too_big (length_field bytes) (frame_limit w)))
        else send_bytes s bytes w

    sent : Result (List ℕ) → Worker × Result (Unit {0})
    sent (ok bytes) = within bytes (ltb (frame_limit w) (length_field bytes))
    sent (err e) = (w, err (cannot_encode e))
    sent (fault x) = (record w { panicked = true }, fault x)

    inner : (bytes : List ℕ) (b : Bool) → (within bytes b).0.panicked ≡ w.panicked
    inner bytes true = refl
    inner bytes false = refl

    go : (r : Result (List ℕ)) → Safely (λ b. Unit {0}) r → (sent r).0.panicked ≡ w.panicked
    go (ok bytes) h = inner bytes (ltb (frame_limit w) (length_field bytes))
    go (err e) h = refl
    go (fault x) h = elim h [ ]

    outer :
        (b : Bool)
        → (if b then (w, err after_disconnect) else sent (to_buffer f)).0.panicked ≡ w.panicked
    outer true = refl
    outer false = go (to_buffer f) (to_buffer-Safely f h)

pub answer_panicked :
    (s : Setting) (f : Frame) (actions : List Action) (w : Worker)
    → HasWords f
    → All HasGoValues actions
    → (answer s f actions w).0.panicked ≡ w.panicked
answer_panicked s f actions w (stream, id) h =
    ap (λ v. v.panicked) (answer-write_ack s f actions w)
    ∙ write_ack_panicked s (ack_frame f actions) w
        (record { stream_word = stream; frame_word = id; items = tt; go_actions = h })
