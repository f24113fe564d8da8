-- ===== src/Worker/Accounts.antt =====
-- What becomes of the NOTIFYs of a connection: the account that its goroutines keep up.
use spop.Base.{
  true, ◌⊎◌, [], Bool, false, inl, inr, ℕ, ◌+◌, ◌≤◌, ◌≡◌, ◌≢◌, length, refl, sym, subst, ap, ◌∙◌,
  List, ◌∷◌, ◌++◌, arith,
}
use spop.Action.{Action}
use spop.Request.{Request}
use spop.Frame.{Frame}
use spop.Frame.Read.{Source}
use spop.Transport.Calls.{writes}
use spop.Worker.{Setting, Worker, ack_frame, request_of}
use spop.Worker.Loop.{Phase, draining}
use spop.Worker.Answering.{answer_same}
use spop.Worker.Machine.{Task, handling, Machine, answer}
use spop.Worker.Written.{Acks, no_frames, another, an_ack, Adds, Quiet, answer-Adds}
use spop.Worker.Spoken.{Silent, Keeps}
use spop.Worker.Lands.{OwnErrors, answer-lands}
use spop.Worker.Counted.{held, held-middle, keys-++, answer-idle, failures-middle, Fine, ran-Fine}
use spop.Worker.Heard.{key, keys, in_hand, Hears}

-- What the handler may leave for a NOTIFY on the worker's connection.
abbrev pub LeftBy : (Request → List Action → Type 0) → Worker → Frame → List Action → Type 0
LeftBy handler w f actions = handler (request_of w f) actions

-- What was answered, is being handled or is in the loop's hands was received; and nothing else was,
-- as long as there was no failure.
pub record Answered (s : Setting) (leaves : Frame → List Action → Type 0) (m : Machine)
    (fs : List Frame) : Type 0 where
  pub acked : List Frame
  pub written : Acks leaves (writes m.worker.conn.calls) acked
  pub ready : (acked ≡ []) ⊎ (m.worker.ready ≡ true)
  pub counted :
      (P : Frame → Bool) → keys acked P + (held m.tasks P + keys (in_hand m.phase) P) ≤ keys fs P
  pub complete :
      OwnErrors s.net
      → Fine m
      → (P : Frame → Bool) → keys fs P ≤ keys acked P + (held m.tasks P + keys (in_hand m.phase) P)

ready-on :
    {acked : List Frame} {r r' : Bool}
    → (acked ≡ []) ⊎ (r ≡ true)
    → (r ≡ true → r' ≡ true)
    → (acked ≡ []) ⊎ (r' ≡ true)
ready-on (inl e) k = inl e
ready-on (inr e) k = inr (k e)

-- The same ACKs, when there are none or the connection stays ready and its engine keeps its name.
pub Acks-engine :
    (handler : Request → List Action → Type 0) (w w' : Worker) {ws : List (List ℕ)}
    {fs : List Frame}
    → (fs ≡ []) ⊎ (w.ready ≡ true)
    → (w.ready ≡ true → w'.engine_id ≡ w.engine_id)
    → Acks (LeftBy handler w) ws fs
    → Acks (LeftBy handler w') ws fs
Acks-engine handler w w' r k no_frames = no_frames
Acks-engine handler w w' r k (another bytes other h) =
    another bytes other (Acks-engine handler w w' r k h)
Acks-engine handler w w' (inr r) k (an_ack f ack bytes t i j left e h) =
    an_ack f ack bytes t i j
      (subst (λ n. handler (record (request_of w f) { engine_id = n }) ack.actions) (sym (k r))
        left)
      e (Acks-engine handler w w' (inr r) k h)
Acks-engine handler w w' (inl e) k (an_ack f ack bytes t i j left q h) = cc

-- A move of the loop that may have received a NOTIFY.
pub from_turn :
    {leaves : Frame → List Action → Type 0} {s : Setting} {w : Worker} {src : Source} {p : Phase}
    {tasks : List Task} {fs : List Frame} {out : Worker × Phase} (src' : Source) (new : List Frame)
    {base : List Frame}
    → ((P : Frame → Bool) → keys base P ≡ keys new P + keys (in_hand p) P)
    → Hears s w base out
    → Keeps w base out
    → w.panicked ≡ false
    → p ≢ draining
    → (w.ready ≡ true → out.0.ready ≡ true)
    → Answered s leaves (record { worker = w; source = src; phase = p; tasks = tasks }) fs
    → Answered s leaves
        (record { worker = out.0; source = src'; phase = out.1; tasks = tasks })
        (new ++ fs)
from_turn {w = w} {p = p} {tasks} {fs} {out} src' new {base} b h k alive live stays a = record {
  acked = a.acked;
  written = h.quiet _ a.acked a.written;
  ready = ready-on a.ready stays;
  counted = λ P. omega (arith, keys-++ new fs P, a.counted P, h.no_more P, b P);
  complete = λ own fine P. omega (
    arith,
    keys-++ new fs P,
    b P,
    k.kept fine.silent fine.live P,
    a.complete own
        (record { silent = k.back fine.silent; alive = alive; live = live; clean = fine.clean }) P,
  );
}

-- Tasks moved on: the loop stands where it did, and no more handlers run.
pub task_ran :
    {s : Setting} {leaves : Frame → List Action → Type 0} {m : Machine} {fs : List Frame}
    (w : Worker) (tasks : List Task)
    → Quiet m.worker w
    → (m.worker.ready ≡ true → w.ready ≡ true)
    → ((P : Frame → Bool) → held tasks P ≤ held m.tasks P)
    → (Fine (record m { worker = w; tasks = tasks })
        → Fine m × ((P : Frame → Bool) → held m.tasks P ≤ held tasks P))
    → Answered s leaves m fs
    → Answered s leaves (record m { worker = w; tasks = tasks }) fs
task_ran {m = m} w tasks q stays l b a = record {
  acked = a.acked;
  written = q _ a.acked a.written;
  ready = ready-on a.ready stays;
  counted = λ P. omega (arith, a.counted P, l P);
  complete = λ own fine P. let (h, e) = b fine in omega (arith, a.complete own h P, e P);
}

-- The loop moved to a phase with no more in its hands.
pub loop_ran :
    {s : Setting} {leaves : Frame → List Action → Type 0} {m : Machine} {fs : List Frame}
    (w : Worker) (p : Phase)
    → Quiet m.worker w
    → (m.worker.ready ≡ true → w.ready ≡ true)
    → ((P : Frame → Bool) → keys (in_hand p) P ≤ keys (in_hand m.phase) P)
    → (Fine (record m { worker = w; phase = p })
        → Fine m × ((P : Frame → Bool) → keys (in_hand m.phase) P ≤ keys (in_hand p) P))
    → Answered s leaves m fs
    → Answered s leaves (record m { worker = w; phase = p }) fs
loop_ran {m = m} w p q stays l b a = record {
  acked = a.acked;
  written = q _ a.acked a.written;
  ready = ready-on a.ready stays;
  counted = λ P. omega (arith, a.counted P, l P);
  complete = λ own fine P. let (h, e) = b fine in omega (arith, a.complete own h P, e P);
}

same_ne_cons : {ws : List (List ℕ)} (bytes : List ℕ) → ws ≢ bytes ∷ ws
same_ne_cons bytes e = omega (arith, ap length e)

answer-Silent :
    (s : Setting) (f : Frame) (actions : List Action) (w : Worker)
    → Silent (answer s f actions w).0
    → Silent w
answer-Silent s f actions w = subst Silent (answer_same s f actions w)

-- A handler's NOTIFY leaves its hands, answered or not.
pub answer-Answered :
    (s : Setting) (m : Machine) (f : Frame) (before after : List Task) (actions : List Action)
    {leaves : Frame → List Action → Type 0} {fs : List Frame}
    → leaves f actions
    → m.worker.ready ≡ true
    → m.worker.panicked ≡ false
    → m.tasks ≡ before ++ (handling f ∷ after)
    → Answered s leaves m fs
    → Answered s leaves
        (record m {
          worker = (answer s f actions m.worker).0;
          tasks = before ++ ((answer s f actions m.worker).1 ∷ after);
        })
        fs
answer-Answered s m f before after actions {leaves} {fs} left ready alive e a =
    go (answer-Adds s f actions m.worker)
  where
    w : Worker
    w = (answer s f actions m.worker).0

    t : Task
    t = (answer s f actions m.worker).1

    was : (P : Frame → Bool) → held m.tasks P ≡ key f P + held (before ++ after) P
    was P = ap (λ ts. held ts P) e ∙ held-middle before after (handling f) P

    still : w.ready ≡ true
    still = ap (λ v. v.ready) (answer_same s f actions m.worker) ∙ ready

    fine_before : Fine (record m { worker = w; tasks = before ++ (t ∷ after) }) → Fine m
    fine_before =
        ran-Fine m w before after (handling f) t (answer-Silent s f actions m.worker) alive e refl

    lands :
        OwnErrors s.net
        → Fine (record m { worker = w; tasks = before ++ (t ∷ after) })
        → (bytes : List ℕ) × (writes w.conn.calls ≡ bytes ∷ writes m.worker.conn.calls)
    lands own h =
        answer-lands s f actions m.worker own (fine_before h).silent.0 h.alive
          (omega (arith, h.clean, failures-middle before after t))

    go :
        Adds (ack_frame f actions) m.worker w
        → Answered s leaves (record m { worker = w; tasks = before ++ (t ∷ after) }) fs
    go (inl same) = record {
      acked = a.acked;
      written = subst (λ ws. Acks leaves ws a.acked) (sym same) a.written;
      ready = inr still;
      counted = λ P. omega (
        arith,
        was P,
        held-middle before after t P,
        answer-idle s f actions m.worker P,
        a.counted P,
      );
      complete =
          λ own h. let (bytes, p) = lands own h in elim (same_ne_cons bytes (sym same ∙ p)) [ ];
    }
    go (inr (bytes, encoded, p)) = record {
      acked = f ∷ a.acked;
      ready = inr still;
      written =
          subst (λ ws. Acks leaves ws (f ∷ a.acked)) (sym p)
            (an_ack f (ack_frame f actions) bytes refl refl refl left encoded a.written);
      counted = λ P. omega (
        arith,
        was P,
        held-middle before after t P,
        answer-idle s f actions m.worker P,
        a.counted P,
      );
      complete = λ own h P. omega (
        arith,
        was P,
        held-middle before after t P,
        answer-idle s f actions m.worker P,
        a.complete own (fine_before h) P,
      );
    }
