-- ===== src/Worker/Finish.antt =====
-- Whatever state a connection is in, its goroutines can finish.
use spop.Base.{
  ℕ, zero, suc, ◌+◌, ◌≤◌, ◌<◌, ◌≡◌, refl, ap, ◌⊎◌, inl, inr, true, false, List, [], ◌∷◌, Option,
  some, All, IsByte, arith, length,
}
use spop.Action.{Action}
use spop.Request.{Request}
use spop.Frame.Read.{Source}
use spop.Worker.{Setting, Worker, slot_limit, request_of}
use spop.Worker.Loop.{
  RunError, Phase, arming, reading, dispatching, parked, starting, draining, closing, stopped,
}
use spop.Worker.Machine.{
  Task, handling, reporting, tearing_down, leaving, Machine, Step, turns, unparks, drains, answers,
  reports, tears_down, leaves, Reach, onwards,
}
use spop.Worker.Order.{bit}
use spop.Worker.Turns.{is_starting}
use spop.Worker.Sound.{MakesStrings, LeavesGoValues}
use spop.Worker.Limits.{Slots, Reach-Slots, slot_limit-pos}
use spop.Worker.Work.{work, moves, is_move, Sound}
use spop.Worker.Progress.{Step-Advances, Reach-Sound, Reach-counts}

-- Every handler returns, with some actions.
abbrev pub Returns : (Request → List Action → Type 0) → Type 0
Returns handler = (req : Request) → (actions : List Action) × handler req actions

-- What a run of steps leads to.
pub data Leads (s : Setting) (handler : Request → List Action → Type 0)
    : Machine → Machine → Type 0 where
  stays : {m : Machine} → Leads s handler m m
  goes : {m m' m'' : Machine} → Step s handler m m' → Leads s handler m' m'' → Leads s handler m m''

Leads-Reach :
    {s : Setting} {handler : Request → List Action → Type 0} {src : Source} {m m' : Machine}
    → Reach s handler src m
    → Leads s handler m m'
    → Reach s handler src m'
Leads-Reach r stays = r
Leads-Reach r (goes st l) = Leads-Reach (onwards r st) l

-- The read loop is over, no handler runs, and every slot is free.
pub record Finished (s : Setting) (m : Machine) : Type 0 where
  pub is_stopped : (r : Option RunError) × (m.phase ≡ stopped r)
  pub no_tasks : m.tasks ≡ []
  pub slots_free : (limit : ℕ) → slot_limit s.config ≡ some limit → m.worker.slots ≡ 0

-- A goroutine can move.
abbrev CanMove : (s : Setting) → (Request → List Action → Type 0) → Machine → Type 0
CanMove s handler m = (m' : Machine) × (st : Step s handler m m') × (is_move st ≡ true)

module _ {s : Setting} {handler : Request → List Action → Type 0}
    (returning : Returns handler) where
  task-CanMove :
      (w : Worker) (src : Source) (p : Phase) (t : Task) (tasks : List Task)
      → w.panicked ≡ false
      → CanMove s handler (record { worker = w; source = src; phase = p; tasks = t ∷ tasks })
  task-CanMove w src p (handling f) tasks e =
      let (actions, allowed) = returning (request_of w f) in
      (_, answers f [] tasks actions e refl allowed, refl)
  task-CanMove w src p (reporting code notice) tasks e =
      (_, reports code notice [] tasks e refl, refl)
  task-CanMove w src p tearing_down tasks e = (_, tears_down [] tasks e refl, refl)
  task-CanMove w src p leaving tasks e = (_, leaves [] tasks e refl, refl)

  loop-CanMove :
      (w : Worker) (src : Source) (p : Phase)
      → Sound s (record { worker = w; source = src; phase = p; tasks = [] })
      → ((limit : ℕ)
          → slot_limit s.config ≡ some limit
          → Slots limit (record { worker = w; source = src; phase = p; tasks = [] }))
      → ((r : Option RunError) × (p ≡ stopped r))
        ⊎ CanMove s handler (record { worker = w; source = src; phase = p; tasks = [] })
  loop-CanMove w src arming h c = inr (_, turns false h.not_panicked, refl)
  loop-CanMove w src reading h c = inr (_, turns false h.not_panicked, refl)
  loop-CanMove w src (dispatching f) h c = inr (_, turns false h.not_panicked, refl)
  loop-CanMove w src (starting f) h c = inr (_, turns false h.not_panicked, refl)
  loop-CanMove w src (closing r) h c = inr (_, turns false h.not_panicked, refl)
  loop-CanMove w src (parked f) h c =
      let (_, limit, e) = h.phase_sound in
      inr (
        _,
        unparks f limit h.not_panicked refl e
            (omega (arith, (c limit e).taken, slot_limit-pos s e)),
        refl,
      )
  loop-CanMove w src draining h c = inr (_, drains h.not_panicked refl refl, refl)
  loop-CanMove w src (stopped r) h c = inl (r, refl)

  Finished-or-CanMove :
      (w : Worker) (src : Source) (p : Phase) (tasks : List Task)
      → Sound s (record { worker = w; source = src; phase = p; tasks = tasks })
      → ((limit : ℕ)
          → slot_limit s.config ≡ some limit
          → Slots limit (record { worker = w; source = src; phase = p; tasks = tasks }))
      → Finished s (record { worker = w; source = src; phase = p; tasks = tasks })
        ⊎ CanMove s handler (record { worker = w; source = src; phase = p; tasks = tasks })
  Finished-or-CanMove w src p (t ∷ tasks) h c = inr (task-CanMove w src p t tasks h.not_panicked)
  Finished-or-CanMove w src p [] h c = elim (loop-CanMove w src p h c) [
    | inl (r, e) ↦ inl (record {
      is_stopped = (r, e);
      no_tasks = refl;
      slots_free = λ limit l. omega (arith, (c limit l).taken, ap (λ q. bit (is_starting q)) e);
    })
    | inr can ↦ inr can
  ]

  finishes :
      (n : ℕ) {src : Source} (m : Machine)
      → MakesStrings s
      → LeavesGoValues handler
      → All IsByte src.input
      → work m < n
      → Reach s handler src m
      → (m' : Machine) × Leads s handler m m' × Finished s m'
  finishes zero m texts values bytes small r = absurd (omega arith)
  finishes (suc n) m texts values bytes small r =
      let sound : Sound s m = Reach-Sound texts values bytes r in
      elim (Finished-or-CanMove m.worker m.source m.phase m.tasks sound
        (λ limit e. Reach-Slots s handler _ m limit e r)) [
          | inl h ↦ (m, stays, h)
          | inr (m', st, e) ↦
              let nearer : bit true + work m' ≤ work m =
                rw e at (Step-Advances texts values sound st).counts in
              let (m'', l, h) = finishes n m' texts values bytes (omega arith) (onwards r st) in
              (m'', goes st l, h)
        ]

-- Whatever the peer has sent, and however the goroutines of a connection were scheduled so far:
-- if every handler returns, with actions that hold values of Go's types, then some schedule ends
-- the read loop with no handler running and, under a positive MaxInFlight, every slot free.
pub Reach-Finishes :
    (s : Setting) (handler : Request → List Action → Type 0) (src : Source) (m : Machine)
    → MakesStrings s
    → LeavesGoValues handler
    → Returns handler
    → All IsByte src.input
    → Reach s handler src m
    → (m' : Machine) × Leads s handler m m' × Finished s m'
Reach-Finishes s handler src m texts values returning bytes r =
    finishes returning (suc (work m)) m texts values bytes (omega arith) r

-- If handlers leave values of Go's types: however the goroutines of a connection are scheduled,
-- none of them panics, and they make at most four moves more than the peer sends bytes. Moves are
-- the steps of the read loop and of the NOTIFY goroutines, without the turns of a loop that waits
-- for another goroutine or is over.
pub Reach-Ends :
    (s : Setting) (handler : Request → List Action → Type 0) (src : Source) (m : Machine)
    → MakesStrings s
    → LeavesGoValues handler
    → All IsByte src.input
    → (r : Reach s handler src m) → (m.worker.panicked ≡ false) × (moves r ≤ 4 + length src.input)
Reach-Ends s handler src m texts values bytes r = (
  (Reach-Sound texts values bytes r).not_panicked,
  omega (arith, Reach-counts texts values bytes r),
)
