-- ===== src/Worker/Heard.antt =====
-- The read loop and the NOTIFYs that it hears.
use spop.Base.{
  ℕ, ◌+◌, ◌≤◌, ◌≡◌, refl, sym, subst, Bool, true, false, not, ◌&&◌, List, [], ◌∷◌, Option, none,
  some, Result, ok, err, fault, Error, arith, if◌then◌else◌, ◌==◌,
}
use spop.Frame.{
  Frame, new_frame, from_haproxy, type_haproxy_hello, type_haproxy_disconnect, type_notify,
}
use spop.Frame.Read.{Source, read_limit}
use spop.Handshake.{
  Notice, Negotiation, agreed, disconnect, negotiate, closed_by_server, status_normal,
}
use spop.Transport.{read_deadline}
use spop.Worker.{
  Setting, Worker, frame_limit, slot_limit, send_agent_hello, send_agent_disconnect,
  disconnect_once, read_timeout,
}
use spop.Worker.Loop.{
  RunError, Phase, arming, reading, dispatching, parked, starting, draining, closing, set_deadline,
  expire, deadline_of, arm_read_deadline, arm_turn, is_eof, is_deadline, is_too_big, read_failed,
  read_turn, hello_agreed, hello_answered, take_hello, disconnect_sent, take_disconnect,
  acquire_slot, take_notify, dispatch, hello_not_sent, deadline_not_set,
}
use spop.Worker.Written.{
  Quiet, send_agent_hello-Quiet, send_agent_disconnect-Quiet, disconnect_once-Quiet,
}

-- How many frames pass a test.
abbrev pub key : Frame → (Frame → Bool) → ℕ
key f P = if P f then 1 else 0

abbrev pub keys : List Frame → (Frame → Bool) → ℕ
keys [] P = 0
keys (f ∷ fs) P = key f P + keys fs P

-- The NOTIFY in the loop's hands.
abbrev pub in_hand : Phase → List Frame
in_hand (dispatching f) = if f.type == type_notify then f ∷ [] else []
in_hand (parked f) = f ∷ []
in_hand (starting f) = f ∷ []
in_hand _ = []

-- A turn writes no ACK, and leaves the loop with nothing but this in its hands.
pub record Hears (s : Setting) (w : Worker) (fs : List Frame) (out : Worker × Phase) : Type 1 where
  pub quiet : Quiet w out.0
  pub no_more : (P : Frame → Bool) → keys (in_hand out.1) P ≤ keys fs P

Hears-if :
    {s : Setting} {w : Worker} {fs : List Frame} (b : Bool) {x y : Worker × Phase}
    → (b ≡ true → Hears s w fs x)
    → (b ≡ false → Hears s w fs y)
    → Hears s w fs (if b then x else y)
Hears-if true hx hy = hx refl
Hears-if false hx hy = hy refl

ends :
    {s : Setting} {w : Worker} {fs : List Frame} (w' : Worker) (r : Option RunError)
    → Quiet w w'
    → Hears s w fs (w', closing r)
ends w' r q = record { quiet = q; no_more = λ P. omega arith }

module _ (s : Setting) where
  parts-Hears :
      (code : ℕ) (notice : Notice) (r : Option RunError) (w : Worker) {fs : List Frame}
      → Hears s w fs (disconnect_once s code notice w, closing r)
  parts-Hears code notice r w =
      ends (disconnect_once s code notice w) r (disconnect_once-Quiet s code notice w)

  read_failed-Hears : (e : Error) (w : Worker) {fs : List Frame} → Hears s w fs (read_failed s e w)
  unfolding read_failed
  read_failed-Hears e w =
      Hears-if (is_eof e) (λ _. ends w none (λ leaves fs h. h))
        λ _.
          Hears-if (is_deadline e && w.done)
            (λ _. record { quiet = λ leaves fs h. h; no_more = λ P. omega arith })
            λ _.
              Hears-if (is_deadline e) (λ _. parts-Hears _ _ _ w)
                λ _. Hears-if (is_too_big e) (λ _. parts-Hears _ _ _ w) λ _. parts-Hears _ _ _ w

  hello_agreed-Hears :
      (f : Frame) (size : ℕ) (w : Worker) {fs : List Frame} → Hears s w fs (hello_agreed s f size w)
  unfolding hello_agreed
  hello_agreed-Hears f size w {fs} =
      go f.healthcheck
        (send_agent_hello s size (record w { max_frame = size; engine_id = f.engine_id }))
        (send_agent_hello-Quiet s size (record w { max_frame = size; engine_id = f.engine_id }))
    where
      outcome : Bool → Worker × Result (Unit {0}) → Worker × Phase
      outcome b (w', ok _) = if b then (w', closing none) else (record w' { ready = true }, arming)
      outcome b (w', err e) = (w', closing (some (hello_not_sent e)))
      outcome b (w', fault x) = (w', closing none)

      go :
          (b : Bool) (out : Worker × Result (Unit {0}))
          → Quiet w out.0
          → Hears s w fs (outcome b out)
      go true (w', ok _) q = ends w' none q
      go false (w', ok _) q = record { quiet = q; no_more = λ P. omega arith }
      go b (w', err x) q = ends w' (some (hello_not_sent x)) q
      go b (w', fault x) q = ends w' none q

  hello_answered-Hears :
      (f : Frame) (n : Negotiation) (w : Worker) {fs : List Frame}
      → Hears s w fs (hello_answered s f n w)
  unfolding hello_answered
  hello_answered-Hears f (agreed size) w = hello_agreed-Hears f size w
  hello_answered-Hears f (disconnect code notice) w = parts-Hears code notice _ w

  take_disconnect-Hears :
      (f : Frame) (w : Worker) {fs : List Frame} → Hears s w fs (take_disconnect s f w)
  unfolding take_disconnect disconnect_sent
  take_disconnect-Hears f w {fs} =
      Hears-if (not w.ready) (λ _. parts-Hears _ _ _ w)
        λ _.
          go (send_agent_disconnect s status_normal closed_by_server w)
            (send_agent_disconnect-Quiet s status_normal closed_by_server w)
    where
      go : (out : Worker × Result (Unit {0})) → Quiet w out.0 → Hears s w fs (disconnect_sent out)
      go (w', ok _) q = ends w' none q
      go (w', err x) q = ends w' _ q
      go (w', fault x) q = ends w' none q

  take_notify-Hears : (f : Frame) (w : Worker) → Hears s w (f ∷ []) (take_notify s f w)
  unfolding take_notify acquire_slot
  take_notify-Hears f w =
      Hears-if (not w.ready) (λ _. parts-Hears _ _ _ w) λ _. go w.done (slot_limit s.config)
    where
      phase : Bool → Option ℕ → Phase
      phase b none = starting f
      phase b (some limit) = if b then draining else parked f

      go : (b : Bool) (o : Option ℕ) → Hears s w (f ∷ []) (w, phase b o)
      go b none = record { quiet = λ leaves fs h. h; no_more = λ P. omega arith }
      go true (some limit) = record { quiet = λ leaves fs h. h; no_more = λ P. omega arith }
      go false (some limit) = record { quiet = λ leaves fs h. h; no_more = λ P. omega arith }

  pub dispatch-Hears :
      (f : Frame) (w : Worker) → Hears s w (in_hand (dispatching f)) (dispatch s f w)
  unfolding dispatch take_hello
  dispatch-Hears f w =
      Hears-if (f.type == type_haproxy_hello)
        (λ _.
          Hears-if w.ready (λ _. parts-Hears _ _ _ w) λ _. hello_answered-Hears f (negotiate f) w)
        λ _.
          Hears-if (f.type == type_haproxy_disconnect) (λ _. take_disconnect-Hears f w)
            λ _.
              Hears-if (f.type == type_notify)
                (λ e.
                  subst (λ b. Hears s w (if b then f ∷ [] else []) (take_notify s f w)) (sym e)
                    (take_notify-Hears f w))
                λ _. parts-Hears _ _ _ w

  pub read_turn-Hears :
      (src : Source) (w : Worker)
      → Hears s w (in_hand (read_turn s src w).2) ((read_turn s src w).0, (read_turn s src w).2)
  unfolding read_turn
  read_turn-Hears src w = go (read_limit new_frame src (frame_limit w) (some from_haproxy))
    where
      outcome : Result (Frame × Source) → Worker × Source × Phase
      outcome (ok (f, src')) = (w, src', dispatching f)
      outcome (err e) = ((read_failed s e w).0, src, (read_failed s e w).1)
      outcome (fault x) = (record w { panicked = true }, src, closing none)

      go :
          (r : Result (Frame × Source))
          → Hears s w (in_hand (outcome r).2) ((outcome r).0, (outcome r).2)
      go (ok (f, src')) = record { quiet = λ leaves fs h. h; no_more = λ P. omega arith }
      go (err e) = read_failed-Hears e w
      go (fault x) = record { quiet = λ leaves fs h. h; no_more = λ P. omega arith }

  set_deadline-Quiet : (t : Option ℕ) (w : Worker) → Quiet w (set_deadline s t w).0
  unfolding set_deadline read_deadline
  set_deadline-Quiet t w = λ leaves fs h. h

  pub expire-Quiet : (w : Worker) → Quiet w (expire s w).0
  unfolding expire
  expire-Quiet w = set_deadline-Quiet (some (s.clock w.conn.calls)) w

  arm_read_deadline-Quiet : (later : Bool) (w : Worker) → Quiet w (arm_read_deadline s later w).0
  unfolding arm_read_deadline
  arm_read_deadline-Quiet later w = outer w.done
    where
      t : Option ℕ
      t = deadline_of (s.clock w.conn.calls) (read_timeout s w)

      set : Worker × Option Error
      set = set_deadline s t w

      rearmed : Option Error → Worker × Option Error
      rearmed (some refused) = (set.0, some refused)
      rearmed none = if later then expire s (record set.0 { done = true }) else (set.0, none)

      inner :
          (b : Bool)
          → Quiet w (if b then expire s (record set.0 { done = true }) else (set.0, none)).0
      inner true = λ leaves fs h.
          expire-Quiet (record set.0 { done = true }) leaves fs (set_deadline-Quiet t w leaves fs h)
      inner false = set_deadline-Quiet t w

      middle : (e : Option Error) → Quiet w (rearmed e).0
      middle (some refused) = set_deadline-Quiet t w
      middle none = inner later

      outer : (b : Bool) → Quiet w (if b then expire s w else rearmed set.1).0
      outer true = expire-Quiet w
      outer false = middle set.1

  pub arm_turn-Hears : (later : Bool) (w : Worker) → Hears s w [] (arm_turn s later w)
  unfolding arm_turn
  arm_turn-Hears later w = go (arm_read_deadline s later w) (arm_read_deadline-Quiet later w)
    where
      outcome : Worker × Option Error → Worker × Phase
      outcome (w', none) = (w', reading)
      outcome (w', some refused) = (w', closing (some (deadline_not_set refused)))

      go : (out : Worker × Option Error) → Quiet w out.0 → Hears s w [] (outcome out)
      go (w', none) q = record { quiet = q; no_more = λ P. omega arith }
      go (w', some refused) q = ends w' _ q
