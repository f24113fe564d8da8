-- ===== src/Worker/Reads.antt =====
-- The deadline and the read of the loop get ahead.
use spop.Base.{
  ℕ, ◌<◌, ◌+◌, ◌≡◌, refl, sym, ap, subst, ◌∙◌, Bool, true, false, Option, none, some, Result, ok,
  err, fault, Error, All, IsByte, Safely, returns, refuses, arith, if◌then◌else◌, length,
  length-drop, All-drop,
}
use spop.Frame.{Frame, new_frame, from_haproxy}
use spop.Frame.Read.{Source, read_limit}
use spop.Frame.Gate.{ReadsFrame, read_limit-ReadsFrame}
use spop.Worker.{Setting, Worker, frame_limit, read_timeout}
use spop.Worker.Loop.{
  Phase, reading, dispatching, closing, set_deadline, expire, deadline_of, arm_read_deadline,
  arm_turn, read_failed, read_turn, deadline_not_set,
}
use spop.Worker.Sound.{MakesStrings}
use spop.Frame.Safety.{HasContents}
use spop.Worker.Moves.{rank, PhaseSound, Moved, closes, read_failed-Moved}

set_deadline_panicked :
    (s : Setting) (t : Option ℕ) (w : Worker) → (set_deadline s t w).0.panicked ≡ w.panicked
unfolding set_deadline
set_deadline_panicked s t w = refl

pub expire_panicked : (s : Setting) (w : Worker) → (expire s w).0.panicked ≡ w.panicked
unfolding expire
expire_panicked s w = set_deadline_panicked s (some (s.clock w.conn.calls)) w

arm_read_deadline_panicked :
    (s : Setting) (later : Bool) (w : Worker)
    → (arm_read_deadline s later w).0.panicked ≡ w.panicked
unfolding arm_read_deadline
arm_read_deadline_panicked s later w = outer w.done
  where
    t : Option ℕ
    t = deadline_of (s.clock w.conn.calls) (read_timeout s w)

    set : Worker × Option Error
    set = set_deadline s t w

    rearmed : Option Error → Worker × Option Error
    rearmed (some refused) = (set.0, some refused)
    rearmed none = if later then expire s (record set.0 { done = true }) else (set.0, none)

    inner :
        (b : Bool)
        → (if b then expire s (record set.0 { done = true }) else (set.0, none)).0.panicked
          ≡ w.panicked
    inner true = expire_panicked s (record set.0 { done = true }) ∙ set_deadline_panicked s t w
    inner false = set_deadline_panicked s t w

    middle : (e : Option Error) → (rearmed e).0.panicked ≡ w.panicked
    middle (some refused) = set_deadline_panicked s t w
    middle none = inner later

    outer : (b : Bool) → (if b then expire s w else rearmed set.1).0.panicked ≡ w.panicked
    outer true = expire_panicked s w
    outer false = middle set.1

pub arm_turn-Moved : (s : Setting) (later : Bool) (w : Worker) → Moved s w 4 (arm_turn s later w)
unfolding arm_turn
arm_turn-Moved s later w = go (arm_read_deadline s later w) (arm_read_deadline_panicked s later w)
  where
    outcome : Worker × Option Error → Worker × Phase
    outcome (w', none) = (w', reading)
    outcome (w', some refused) = (w', closing (some (deadline_not_set refused)))

    go : (out : Worker × Option Error) → out.0.panicked ≡ w.panicked → Moved s w 4 (outcome out)
    go (w', none) e = record { same_panicked = e; phase_sound = tt; less = omega arith }
    go (w', some refused) e = closes w' _ e (omega arith)

new_frame-HasContents : HasContents new_frame
new_frame-HasContents = record {
  kv_items = tt;
  all_messages = tt;
  all_actions = tt;
  engine_string = (tt, omega arith);
  size_word = omega arith;
}

-- A read takes more off the source than the frame in its hands adds to the way that is left.
pub record MovedOn (s : Setting) (w : Worker) (n : ℕ) (out : Worker × Source × Phase) : Type 0 where
  pub same_panicked : out.0.panicked ≡ w.panicked
  pub phase_sound : PhaseSound s out.2
  pub bytes : All IsByte out.1.input
  pub less : length out.1.input + rank out.2 < n

pub moved_on :
    {s : Setting} {w : Worker} {n : ℕ} {out : Worker × Phase} (src : Source)
    → All IsByte src.input
    → Moved s w n out
    → MovedOn s w (length src.input + n) (out.0, src, out.1)
moved_on src h m = record {
  same_panicked = m.same_panicked;
  phase_sound = m.phase_sound;
  bytes = h;
  less = omega (arith, m.less);
}

pub read_turn-MovedOn :
    (s : Setting) (src : Source) (w : Worker)
    → MakesStrings s
    → All IsByte src.input
    → MovedOn s w (length src.input + 3) (read_turn s src w)
unfolding read_turn
read_turn-MovedOn s src w texts h =
    go (read_limit new_frame src (frame_limit w) (some from_haproxy)) (
      read_limit-ReadsFrame new_frame src (frame_limit w) (some from_haproxy) new_frame-HasContents
        h)
  where
    outcome : Result (Frame × Source) → Worker × Source × Phase
    outcome (ok (f, src')) = (w, src', dispatching f)
    outcome (err e) = ((read_failed s e w).0, src, (read_failed s e w).1)
    outcome (fault x) = (record w { panicked = true }, src, closing none)

    go :
        (r : Result (Frame × Source))
        → Safely (λ (f, src'). ReadsFrame src (frame_limit w) (some from_haproxy) f src') r
        → MovedOn s w (length src.input + 3) (outcome r)
    go (ok (f, src')) (returns x) = record {
      same_panicked = refl;
      phase_sound = (x.is_frame.stream_word, x.is_frame.frame_word);
      bytes = subst (All IsByte) (sym x.rest) (All-drop IsByte (4 + f.len) src.input h);
      less =
          omega (arith, ap length x.rest, length-drop (4 + f.len) src.input, x.enough, x.passes.2);
    }
    go (err e) refuses = moved_on src h (read_failed-Moved s texts e w)
    go (fault x) r = elim r [ ]
