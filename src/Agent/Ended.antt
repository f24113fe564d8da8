-- ===== src/Agent/Ended.antt =====
-- What `Shutdown` has done where it stands, and where it ends.
use spop.Base.{◌⊎◌, ℕ, ◌+◌, ◌≤◌, ◌≡◌, true, false, List, [], Option, none, some}
use spop.Agent.{Agent}
use spop.Agent.Serving.{System}
use spop.Agent.Slots.{running}
use spop.Agent.Roster.{occurs, names, Roster}
use spop.Agent.Shutdown.{
  Stopping, closing_listeners, waking, waiting, expired, closing_conns, returned, Ending,
}

-- Each connection that is handled is in one of the lists.
abbrev pub Covers : List ℕ → List ℕ → System → Type 0
Covers pending done_with x =
    (c : ℕ) → occurs (names x.live) c ≤ occurs pending c + occurs done_with c

-- Each listener that the call found is still to be closed, or closed.
abbrev pub Closes : List ℕ → Ending → Type 0
Closes pending x = (l : ℕ) → occurs x.taken_over l ≤ occurs pending l + occurs x.closed_listeners l

-- What holds at a stage of the call. From `waiting` on every listener is closed, and every
-- connection that is handled is woken.
abbrev pub StageHolds : Option Stopping → Ending → Type 0
StageHolds none x = Unit {0}
StageHolds (some (closing_listeners listeners conns)) x =
    (x.system.agent.draining ≡ true) × Closes listeners x × Covers conns [] x.system
StageHolds (some (waking conns)) x =
    (x.system.agent.draining ≡ true) × Closes [] x × Covers conns x.woken x.system
StageHolds (some waiting) x =
    (x.system.agent.draining ≡ true) × Closes [] x × Covers [] x.woken x.system
StageHolds (some expired) x =
    (x.system.agent.draining ≡ true)
    × Closes [] x
    × Covers [] x.woken x.system
    × (x.system.agent.cancelled ≡ true)
StageHolds (some (closing_conns conns)) x =
    (x.system.agent.draining ≡ true)
    × Closes [] x
    × Covers [] x.woken x.system
    × (x.system.agent.cancelled ≡ true)
    × Covers conns x.closed x.system
StageHolds (some (returned false)) x =
    (x.system.agent.draining ≡ true)
    × Closes [] x
    × Covers [] x.woken x.system
    × (x.system.agent.cancelled ≡ true)
    × Covers [] x.closed x.system
StageHolds (some (returned true)) x =
    (x.system.agent.draining ≡ true)
    × Closes [] x
    × Covers [] x.woken x.system
    × (x.system.agent.cancelled ≡ true)
    × (running x.system.live ≡ 0)

-- Only once the agent drains does another call return at once.
abbrev pub Repeats : Ending → Type 0
Repeats x = (x.repeats ≡ 0) ⊎ (x.system.agent.draining ≡ true)

-- What a step of another goroutine keeps while the agent drains: it drains, no handled connection
-- is added, and a cancelled context stays so.
record Shrinks (x y : System) : Type 0 where
  drains_on : y.agent.draining ≡ true
  fewer : (c : ℕ) → occurs (names y.live) c ≤ occurs (names x.live) c
  less_running : running y.live ≤ running x.live
  stays_cancelled : y.agent.cancelled ≡ x.agent.cancelled

abbrev Kept : Ending → Type 0
Kept x = Roster x.system × StageHolds x.stopping x
