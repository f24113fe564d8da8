-- ===== src/Agent/Shutdown.antt =====
-- `Shutdown` among the goroutines of an agent: what it closes and wakes, the wait for the handled
-- connections, the end of the grace period, and `closeAll`.
use spop.Base.{ℕ, suc, ◌≡◌, Bool, true, false, List, [], ◌∷◌, Option, none, some}
use spop.Agent.{Agent, AgentOption, begin_shutdown}
use spop.Agent.Serving.{System, new_system, Step, shuts_down}

-- Where the call stands: with listeners to close and connections to wake, in the select, behind
-- the end of the grace period, with connections to close, and behind its end (`true` is nil,
-- `false` is ctx.Err()).
pub data Stopping : Type 0 where
  closing_listeners : List ℕ → List ℕ → Stopping
  waking : List ℕ → Stopping
  waiting expired : Stopping
  closing_conns : List ℕ → Stopping
  returned : Bool → Stopping

-- `taken_over` are the listeners that the call found. `closed_listeners`, `woken` and `closed`
-- are the listeners and connections that it has closed, given a read deadline, and closed.
-- `repeats` counts the other calls, which return nil at once.
pub record Ending : Type 0 where
  pub system : System
  pub stopping : Option Stopping
  pub taken_over : List ℕ
  pub closed_listeners : List ℕ
  pub woken : List ℕ
  pub closed : List ℕ
  pub repeats : ℕ

abbrev pub new_ending : List AgentOption → Ending
new_ending opts = record {
  system = new_system opts;
  stopping = none;
  taken_over = [];
  closed_listeners = [];
  woken = [];
  closed = [];
  repeats = 0;
}

-- `agent.cancel()`
abbrev pub cancel : System → System
cancel x = record x { agent = record x.agent { cancelled = true } }

abbrev pub is_shutdown : {x y : System} → Step x y → Bool
is_shutdown shuts_down = true
is_shutdown _ = false

-- Another goroutine runs, the call of `Shutdown` that began the drain goes on, or another call is
-- made.
pub data Move (x : Ending) : Ending → Type 0 where
  runs :
      {y : System} (st : Step x.system y)
      → is_shutdown st ≡ false
      → Move x (record x { system = y })
  begins :
      (a : Agent) (listeners conns : List ℕ)
      → begin_shutdown x.system.agent ≡ (a, some (listeners, conns))
      → Move x (record x {
        system = record x.system { agent = a };
        stopping = some (closing_listeners listeners conns);
        taken_over = listeners;
      })
  repeats_call :
      (a : Agent)
      → begin_shutdown x.system.agent ≡ (a, none)
      → Move x (record x { system = record x.system { agent = a }; repeats = suc x.repeats })
  closes_listener :
      (l : ℕ) (listeners conns : List ℕ)
      → x.stopping ≡ some (closing_listeners (l ∷ listeners) conns)
      → Move x (record x {
        stopping = some (closing_listeners listeners conns);
        closed_listeners = l ∷ x.closed_listeners;
      })
  closed_all_listeners :
      (conns : List ℕ)
      → x.stopping ≡ some (closing_listeners [] conns)
      → Move x (record x { stopping = some (waking conns) })
  wakes :
      (c : ℕ) (conns : List ℕ)
      → x.stopping ≡ some (waking (c ∷ conns))
      → Move x (record x { stopping = some (waking conns); woken = c ∷ x.woken })
  woke_all : x.stopping ≡ some (waking []) → Move x (record x { stopping = some waiting })
  drains :
      x.stopping ≡ some waiting
      → x.system.agent.waiting ≡ 0
      → Move x (record x { system = cancel x.system; stopping = some (returned true) })
  expires :
      x.stopping ≡ some waiting
      → Move x (record x { system = cancel x.system; stopping = some expired })
  takes_conns :
      x.stopping ≡ some expired
      → Move x (record x { stopping = some (closing_conns x.system.agent.conns) })
  closes_conn :
      (c : ℕ) (conns : List ℕ)
      → x.stopping ≡ some (closing_conns (c ∷ conns))
      → Move x (record x { stopping = some (closing_conns conns); closed = c ∷ x.closed })
  closed_all_conns :
      x.stopping ≡ some (closing_conns []) → Move x (record x { stopping = some (returned false) })

pub data Reaches (opts : List AgentOption) : Ending → Type 0 where
  start : Reaches opts (new_ending opts)
  onwards : {x y : Ending} → Reaches opts x → Move x y → Reaches opts y
