-- ===== src/Worker/Work.antt =====
-- What the goroutines of a connection count down, and what keeps them from a panic.
use spop.Base.{
  ℕ, ◌+◌, ◌≤◌, ◌≡◌, refl, Bool, true, false, not, List, [], ◌∷◌, ◌++◌, All, IsU32, IsByte, arith,
  length,
}
use spop.Action.{Action}
use spop.Request.{Request}
use spop.Frame.Read.{Source}
use spop.Worker.{Setting}
use spop.Worker.Loop.{Phase, parked, draining, stopped}
use spop.Worker.Machine.{
  Task, handling, reporting, tearing_down, leaving, Machine, Step, turns, begins_drain, pokes,
  closes_all, Reach, start, onwards,
}
use spop.Worker.Order.{bit}
use spop.Worker.Sound.{HasWords}
use spop.Worker.Moves.{rank, PhaseSound}

-- How far a NOTIFY's goroutine is from its end, and all of them.
abbrev pub task_rank : Task → ℕ
task_rank (handling f) = 4
task_rank (reporting code notice) = 3
task_rank tearing_down = 2
task_rank leaving = 1

abbrev pub load : List Task → ℕ
load [] = 0
load (t ∷ tasks) = task_rank t + load tasks

-- The moves that are left at most, when each byte that will arrive counts for one.
abbrev pub work : Machine → ℕ
work m = length m.source.input + rank m.phase + load m.tasks

-- The loop waits for another goroutine, or is over.
abbrev pub waits : Phase → Bool
waits (parked f) = true
waits draining = true
waits (stopped r) = true
waits _ = false

-- A step of a goroutine that runs; the others are the loop's idling and the agent's.
abbrev pub is_move :
    {s : Setting} {handler : Request → List Action → Type 0} {m m' : Machine}
    → Step s handler m m'
    → Bool
is_move {m = m} (turns later _) = not (waits m.phase)
is_move begins_drain = false
is_move (pokes d) = false
is_move (closes_all d) = false
is_move _ = true

abbrev pub moves :
    {s : Setting} {handler : Request → List Action → Type 0} {src : Source} {m : Machine}
    → Reach s handler src m
    → ℕ
moves start = 0
moves (onwards r st) = moves r + bit (is_move st)

abbrev pub TaskSound : Task → Type 0
TaskSound (handling f) = HasWords f
TaskSound (reporting code notice) = IsU32 code
TaskSound _ = Unit

pub record Sound (s : Setting) (m : Machine) : Type 0 where
  pub not_panicked : m.worker.panicked ≡ false
  pub bytes : All IsByte m.source.input
  pub phase_sound : PhaseSound s m.phase
  pub tasks_sound : All TaskSound m.tasks

pub load-middle :
    (before after : List Task) (t : Task)
    → load (before ++ t ∷ after) ≡ task_rank t + load (before ++ after)
load-middle [] after t = refl
load-middle (u ∷ before) after t = omega (arith, load-middle before after t)

pub All-middle :
    {P : Task → Type 0} (before after : List Task) (t : Task)
    → All P (before ++ t ∷ after)
    → P t × All P (before ++ after) × ((u : Task) → P u → All P (before ++ u ∷ after))
All-middle [] after t (ht, h) = (ht, h, λ u hu. (hu, h))
All-middle (v ∷ before) after t (hv, h) =
    let (ht, rest, put) = All-middle before after t h in (ht, (hv, rest), λ u hu. (hv, put u hu))

pub record Advances (s : Setting) (m m' : Machine) (moving : Bool) : Type 0 where
  pub sound : Sound s m'
  pub counts : bit moving + work m' ≤ work m
