-- ===== src/Worker/Moves.antt =====
-- A turn of the read loop gets ahead: what it counts down, and what it keeps.
use spop.Base.{
  ℕ, ◌<◌, ◌≡◌, refl, Bool, true, false, not, ◌&&◌, Option, none, some, Result, ok, err, fault,
  Error, IsU32, arith, if◌then◌else◌, ◌==◌,
}
use spop.Frame.{Frame, type_haproxy_hello, type_haproxy_disconnect, type_notify}
use spop.Handshake.{
  Notice, Negotiation, agreed, disconnect, negotiate, closed_by_server, status_normal,
}
use spop.Handshake.Rules.{negotiate-IsFrameSize, negotiate-IsU32}
use spop.Worker.{
  Setting, Worker, slot_limit, send_agent_hello, send_agent_disconnect, disconnect_once,
}
use spop.Worker.Loop.{
  RunError, Phase, arming, reading, dispatching, parked, starting, draining, closing, stopped,
  is_eof, is_deadline, is_too_big, read_failed, hello_agreed, hello_answered, take_hello,
  disconnect_sent, take_disconnect, acquire_slot, take_notify, dispatch, hello_not_sent,
}
use spop.Worker.Sound.{
  MakesStrings, HasWords, send_agent_hello_panicked, send_agent_disconnect_panicked,
  disconnect_once_panicked,
}

-- How far the loop is from its end, in moves, when nothing more arrives.
abbrev pub rank : Phase → ℕ
rank (dispatching f) = 11
rank (parked f) = 10
rank (starting f) = 9
rank arming = 4
rank reading = 3
rank draining = 2
rank (closing r) = 1
rank (stopped r) = 0

-- The frame in the loop's hands has words for identifiers; it waits for a slot if there are any.
abbrev pub PhaseSound : Setting → Phase → Type 0
PhaseSound s (dispatching f) = HasWords f
PhaseSound s (parked f) = HasWords f × (limit : ℕ) × (slot_limit s.config ≡ some limit)
PhaseSound s (starting f) = HasWords f
PhaseSound s _ = Unit

pub record Moved (s : Setting) (w : Worker) (n : ℕ) (out : Worker × Phase) : Type 0 where
  pub same_panicked : out.0.panicked ≡ w.panicked
  pub phase_sound : PhaseSound s out.1
  pub less : rank out.1 < n

Moved-if :
    {s : Setting} {w : Worker} {n : ℕ} (b : Bool) {x y : Worker × Phase}
    → (b ≡ true → Moved s w n x)
    → (b ≡ false → Moved s w n y)
    → Moved s w n (if b then x else y)
Moved-if true hx hy = hx refl
Moved-if false hx hy = hy refl

-- The loop is closing, or waits for its handlers.
pub closes :
    {s : Setting} {w : Worker} {n : ℕ} (w' : Worker) (r : Option RunError)
    → w'.panicked ≡ w.panicked
    → 1 < n
    → Moved s w n (w', closing r)
closes w' r e h = record { same_panicked = e; phase_sound = tt; less = h }

module _ (s : Setting) (texts : MakesStrings s) where
  parts-Moved :
      (code : ℕ) (notice : Notice) (r : Option RunError) (w : Worker) {n : ℕ}
      → IsU32 code
      → 1 < n
      → Moved s w n (disconnect_once s code notice w, closing r)
  parts-Moved code notice r w c h =
      closes (disconnect_once s code notice w) r (disconnect_once_panicked s code notice w texts c)
        h

  pub read_failed-Moved : (e : Error) (w : Worker) → Moved s w 3 (read_failed s e w)
  unfolding read_failed
  read_failed-Moved e w =
      Moved-if (is_eof e) (λ _. closes w none refl (omega arith))
        λ _.
          Moved-if (is_deadline e && w.done)
            (λ _. record { same_panicked = refl; phase_sound = tt; less = omega arith })
            λ _.
              Moved-if (is_deadline e) (λ _. parts-Moved _ _ _ w (omega arith) (omega arith))
                λ _.
                  Moved-if (is_too_big e) (λ _. parts-Moved _ _ _ w (omega arith) (omega arith))
                    λ _. parts-Moved _ _ _ w (omega arith) (omega arith)

  hello_agreed-Moved :
      (f : Frame) (size : ℕ) (w : Worker) → IsU32 size → Moved s w 11 (hello_agreed s f size w)
  unfolding hello_agreed
  hello_agreed-Moved f size w h =
      go f.healthcheck
        (send_agent_hello s size (record w { max_frame = size; engine_id = f.engine_id }))
        (send_agent_hello_panicked s size _ h)
    where
      outcome : Bool → Worker × Result (Unit {0}) → Worker × Phase
      outcome b (w', ok _) = if b then (w', closing none) else (record w' { ready = true }, arming)
      outcome b (w', err e) = (w', closing (some (hello_not_sent e)))
      outcome b (w', fault x) = (w', closing none)

      go :
          (b : Bool) (out : Worker × Result (Unit {0}))
          → out.0.panicked ≡ w.panicked
          → Moved s w 11 (outcome b out)
      go true (w', ok _) e = closes w' none e (omega arith)
      go false (w', ok _) e = record { same_panicked = e; phase_sound = tt; less = omega arith }
      go b (w', err x) e = closes w' _ e (omega arith)
      go b (w', fault x) e = closes w' none e (omega arith)

  hello_answered-Moved :
      (f : Frame) (n : Negotiation) (w : Worker)
      → negotiate f ≡ n
      → Moved s w 11 (hello_answered s f n w)
  unfolding hello_answered
  hello_answered-Moved f (agreed size) w e =
      hello_agreed-Moved f size w (omega (arith, negotiate-IsFrameSize f size e))
  hello_answered-Moved f (disconnect code notice) w e =
      parts-Moved code notice _ w (negotiate-IsU32 f code notice e) (omega arith)

  take_disconnect-Moved : (f : Frame) (w : Worker) → Moved s w 11 (take_disconnect s f w)
  unfolding take_disconnect disconnect_sent
  take_disconnect-Moved f w =
      Moved-if (not w.ready) (λ _. parts-Moved _ _ _ w (omega arith) (omega arith))
        λ _.
          go (send_agent_disconnect s status_normal closed_by_server w)
            (send_agent_disconnect_panicked s _ _ w texts (omega arith))
    where
      go :
          (out : Worker × Result (Unit {0}))
          → out.0.panicked ≡ w.panicked
          → Moved s w 11 (disconnect_sent out)
      go (w', ok _) e = closes w' none e (omega arith)
      go (w', err x) e = closes w' _ e (omega arith)
      go (w', fault x) e = closes w' none e (omega arith)

  take_notify-Moved : (f : Frame) (w : Worker) → HasWords f → Moved s w 11 (take_notify s f w)
  unfolding take_notify acquire_slot
  take_notify-Moved f w h =
      Moved-if (not w.ready) (λ _. parts-Moved _ _ _ w (omega arith) (omega arith))
        λ _. go w.done (slot_limit s.config) refl
    where
      phase : Bool → Option ℕ → Phase
      phase b none = starting f
      phase b (some limit) = if b then draining else parked f

      go : (b : Bool) (o : Option ℕ) → slot_limit s.config ≡ o → Moved s w 11 (w, phase b o)
      go b none e = record { same_panicked = refl; phase_sound = h; less = omega arith }
      go true (some limit) e = record { same_panicked = refl; phase_sound = tt; less = omega arith }
      go false (some limit) e = record {
        same_panicked = refl;
        phase_sound = (h, limit, e);
        less = omega arith;
      }

  pub dispatch-Moved : (f : Frame) (w : Worker) → HasWords f → Moved s w 11 (dispatch s f w)
  unfolding dispatch take_hello
  dispatch-Moved f w h =
      Moved-if (f.type == type_haproxy_hello)
        (λ _.
          Moved-if w.ready (λ _. parts-Moved _ _ _ w (omega arith) (omega arith))
            λ _. hello_answered-Moved f (negotiate f) w refl)
        λ _.
          Moved-if (f.type == type_haproxy_disconnect) (λ _. take_disconnect-Moved f w)
            λ _.
              Moved-if (f.type == type_notify) (λ _. take_notify-Moved f w h)
                λ _. parts-Moved _ _ _ w (omega arith) (omega arith)
