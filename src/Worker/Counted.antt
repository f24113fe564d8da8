-- ===== src/Worker/Counted.antt =====
-- The NOTIFYs of a connection, counted: those received, and those with a handler.
use spop.Base.{
  Bool, false, ℕ, ◌+◌, ◌≤◌, ◌≡◌, ◌≢◌, refl, ap, List, [], ◌∷◌, ◌++◌, Error, after_disconnect,
  frame_too_big, cannot_encode, arith, Option, none, some, ◌-◌,
}
use spop.Action.{Action}
use spop.Request.{Request}
use spop.Frame.{Frame}
use spop.Frame.Read.{Source}
use spop.Worker.{Setting, Worker, close_worker, slot_limit}
use spop.Worker.Loop.{Phase, reading, draining, read_turn}
use spop.Worker.Answering.{answer-task}
use spop.Worker.Machine.{
  Task, handling, Machine, report_of, answer, release_slot, Step, turns, Reach, start, onwards,
}
use spop.Worker.Session.{close_conn-writes}
use spop.Worker.Written.{same-Quiet, Quiet}
use spop.Worker.Spoken.{Silent}
use spop.Worker.Lands.{fails}
use spop.Worker.Heard.{key, keys, in_hand}

-- The NOTIFY that a move of the read loop receives.
abbrev pub received_by : Setting → Source → Worker → Phase → List Frame
received_by s src w reading = in_hand (read_turn s src w).2
received_by s src w _ = []

abbrev pub received :
    {s : Setting} {handler : Request → List Action → Type 0} {m m' : Machine}
    → Step s handler m m'
    → List Frame
received {s} {m = m} (turns later _) = received_by s m.source m.worker m.phase
received _ = []

-- The NOTIFYs that the connection has received, the latest first.
unfoldable pub heard :
    {s : Setting} {handler : Request → List Action → Type 0} {src : Source} {m : Machine}
    → Reach s handler src m
    → List Frame
heard start = []
heard (onwards r st) = received st ++ heard r

-- How many handlers run on NOTIFYs that pass a test.
abbrev pub holds : Task → (Frame → Bool) → ℕ
holds (handling f) P = key f P
holds _ P = 0

abbrev pub held : List Task → (Frame → Bool) → ℕ
held [] P = 0
held (t ∷ ts) P = holds t P + held ts P

pub held-middle :
    (before after : List Task) (t : Task) (P : Frame → Bool)
    → held (before ++ (t ∷ after)) P ≡ holds t P + held (before ++ after) P
held-middle [] after t P = refl
held-middle (x ∷ before) after t P =
    let e : held (before ++ (t ∷ after)) P ≡ holds t P + held (before ++ after) P =
      held-middle before after t P in
    omega (arith, e)

pub keys-++ : (fs gs : List Frame) (P : Frame → Bool) → keys (fs ++ gs) P ≡ keys fs P + keys gs P
keys-++ [] gs P = omega arith
keys-++ (f ∷ fs) gs P =
    let e : keys (fs ++ gs) P ≡ keys fs P + keys gs P = keys-++ fs gs P in omega (arith, e)

pub close_worker-Quiet : (s : Setting) (w : Worker) → Quiet w (close_worker s w)
unfolding close_worker
close_worker-Quiet s w = same-Quiet w (close_worker s w) (close_conn-writes s.net w.conn)

pub release_slot-Quiet : (s : Setting) (w : Worker) → Quiet w (release_slot s w)
unfolding release_slot
release_slot-Quiet s w = go (slot_limit s.config)
  where
    go :
        (o : Option ℕ)
        → Quiet w (elim o [ none ↦ w | some limit ↦ record w { slots = w.slots - 1 } ])
    go none = λ leaves fs h. h
    go (some limit) = λ leaves fs h. h

report_of-idle : (e : Error) (P : Frame → Bool) → holds (report_of e) P ≡ 0
unfolding report_of
report_of-idle after_disconnect P = refl
report_of-idle (frame_too_big size limit) P = refl
report_of-idle (cannot_encode e) P = refl
report_of-idle e P = refl

pub answer-idle :
    (s : Setting) (f : Frame) (actions : List Action) (w : Worker) (P : Frame → Bool)
    → holds (answer s f actions w).1 P ≡ 0
answer-idle s f actions w P =
    answer-task (λ t. holds t P ≡ 0) s f actions w refl (λ e. report_of-idle e P)

-- A task that is not a handler moves on to one that is not.
pub idle_middle :
    (ts before after : List Task) (t t' : Task)
    → ((P : Frame → Bool) → holds t' P ≡ 0)
    → ts ≡ before ++ (t ∷ after)
    → (P : Frame → Bool) → held (before ++ (t' ∷ after)) P ≤ held ts P
idle_middle ts before after t t' z e P = omega (
  arith,
  z P,
  ap (λ us. held us P) e,
  held-middle before after t P,
  held-middle before after t' P,
)

pub gone_middle :
    (ts before after : List Task) (t : Task)
    → ts ≡ before ++ (t ∷ after)
    → (P : Frame → Bool) → held (before ++ after) P ≤ held ts P
gone_middle ts before after t e P =
    omega (arith, ap (λ us. held us P) e, held-middle before after t P)

-- How many handlers have a report to make.
abbrev pub failures : List Task → ℕ
failures [] = 0
failures (t ∷ ts) = fails t + failures ts

pub failures-middle :
    (before after : List Task) (t : Task)
    → failures (before ++ (t ∷ after)) ≡ fails t + failures (before ++ after)
failures-middle [] after t = refl
failures-middle (x ∷ before) after t =
    let e : failures (before ++ (t ∷ after)) ≡ fails t + failures (before ++ after) =
      failures-middle before after t in
    omega (arith, e)

-- The connection has had no failure: no AGENT-DISCONNECT was asked for, the read loop has not given
-- up for a drain, and no handler has a report to make.
pub record Fine (m : Machine) : Type 0 where
  pub silent : Silent m.worker
  pub alive : m.worker.panicked ≡ false
  pub live : m.phase ≢ draining
  pub clean : failures m.tasks ≡ 0

-- A task without a report moved on.
pub ran-Fine :
    (m : Machine) (w : Worker) (before after : List Task) (t t' : Task)
    → (Silent w → Silent m.worker)
    → m.worker.panicked ≡ false
    → m.tasks ≡ before ++ (t ∷ after)
    → fails t ≡ 0
    → Fine (record m { worker = w; tasks = before ++ (t' ∷ after) })
    → Fine m
ran-Fine m w before after t t' back alive e z h = record {
  silent = back h.silent;
  alive = alive;
  live = h.live;
  clean = omega (
    arith,
    z,
    h.clean,
    ap failures e,
    failures-middle before after t,
    failures-middle before after t',
  );
}

pub middle_idle :
    (ts before after : List Task) (t t' : Task)
    → ((P : Frame → Bool) → holds t P ≡ 0)
    → ts ≡ before ++ (t ∷ after)
    → (P : Frame → Bool) → held ts P ≤ held (before ++ (t' ∷ after)) P
middle_idle ts before after t t' z e P = omega (
  arith,
  z P,
  ap (λ us. held us P) e,
  held-middle before after t P,
  held-middle before after t' P,
)

pub close_worker-Silent : (s : Setting) (w : Worker) → Silent (close_worker s w) → Silent w
unfolding close_worker
close_worker-Silent s w h = h

pub release_slot-Silent : (s : Setting) (w : Worker) → Silent (release_slot s w) → Silent w
unfolding release_slot
release_slot-Silent s w = go (slot_limit s.config)
  where
    go :
        (o : Option ℕ)
        → Silent (elim o [ none ↦ w | some limit ↦ record w { slots = w.slots - 1 } ])
        → Silent w
    go none h = h
    go (some limit) h = h
