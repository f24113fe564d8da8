-- ===== src/Agent/Serving.antt =====
-- The goroutines of an agent: the calls of `Serve`, the connections' workers, and `Shutdown`.
use spop.Base.{ℕ, ◌<◌, ◌≡◌, true, false, List, [], ◌∷◌, ◌++◌, Option, none, some, if◌then◌else◌}
use spop.Agent.{
  Agent, new_agent, AcceptError, is_transient, next_accept_backoff, conn_limit, release_conn,
  take_conn, has_conn, AgentOption, track, forget, add_listener, begin_shutdown,
}

-- Where a call of `Serve` stands: before a slot, in `Accept` with a slot, in the pause, with a
-- connection that is not in the table yet, behind its end (`none` is ErrShutdown). A number is the
-- current backoff.
pub data Serving : Type 0 where
  acquiring selecting accepting pausing : ℕ → Serving
  tracking : ℕ → Serving
  served : Option AcceptError → Serving

-- A connection's goroutine: in `worker.Handle`, or behind `forget` with the slot still taken.
pub data Live : Type 0 where
  handled : ℕ → Live
  forgotten : Live

pub record System : Type 0 where
  pub agent : Agent
  pub serving : List Serving
  pub live : List Live

abbrev pub new_system : List AgentOption → System
new_system opts = record { agent = new_agent opts; serving = []; live = [] }

-- `acquireConn`, up to its select.
unfoldable pub acquire_conn : Agent → ℕ → Serving
acquire_conn a backoff = elim (conn_limit a.options.max_connections) [
  | none ↦ accepting backoff
  | some limit ↦ if a.draining then served none else selecting backoff
]

-- `Serve` behind an `Accept` that failed.
unfoldable pub accept_failed : Agent → ℕ → AcceptError → Serving
accept_failed a backoff e =
    if a.draining
    then served none
    else if is_transient e
    then pausing (next_accept_backoff backoff)
    else served (some e)

-- A call of `Serve` goes from one stage to the next, and the agent with it.
pub data Serves (a : Agent) : Serving → Agent → Serving → Type 0 where
  acquires : (backoff : ℕ) → Serves a (acquiring backoff) a (acquire_conn a backoff)
  selects_slot :
      (backoff limit : ℕ)
      → conn_limit a.options.max_connections ≡ some limit
      → a.slots < limit
      → Serves a (selecting backoff) (take_conn a) (accepting backoff)
  selects_done : (backoff : ℕ) → a.draining ≡ true → Serves a (selecting backoff) a (served none)
  fails :
      (backoff : ℕ) (e : AcceptError)
      → Serves a (accepting backoff) (release_conn a) (accept_failed a backoff e)
  accepts : (backoff c : ℕ) → Serves a (accepting backoff) a (tracking c)
  resumes : (backoff : ℕ) → Serves a (pausing backoff) a (acquiring backoff)
  gives_up : (backoff : ℕ) → a.draining ≡ true → Serves a (pausing backoff) a (served none)
  refuses : (c : ℕ) → track c a ≡ none → Serves a (tracking c) (release_conn a) (served none)

pub data Step (x : System) : System → Type 0 where
  starts :
      (l : ℕ) (a : Agent)
      → add_listener l x.agent ≡ some a
      → Step x (record x { agent = a; serving = acquiring 0 ∷ x.serving })
  serves :
      (before after : List Serving) (s s' : Serving) (a : Agent)
      → x.serving ≡ before ++ s ∷ after
      → Serves x.agent s a s'
      → Step x (record x { agent = a; serving = before ++ s' ∷ after })
  -- The pointer of `NewConn` is none that the table holds.
  tracks :
      (before after : List Serving) (c : ℕ) (a : Agent)
      → x.serving ≡ before ++ tracking c ∷ after
      → has_conn x.agent.conns c ≡ false
      → track c x.agent ≡ some a
      → Step x (record x {
        agent = a;
        serving = before ++ acquiring 0 ∷ after;
        live = handled c ∷ x.live;
      })
  forgets :
      (before after : List Live) (c : ℕ)
      → x.live ≡ before ++ handled c ∷ after
      → Step x (record x { agent = forget c x.agent; live = before ++ forgotten ∷ after })
  releases :
      (before after : List Live)
      → x.live ≡ before ++ forgotten ∷ after
      → Step x (record x { agent = release_conn x.agent; live = before ++ after })
  shuts_down : Step x (record x { agent = (begin_shutdown x.agent).0 })

pub data Reach (opts : List AgentOption) : System → Type 0 where
  start : Reach opts (new_system opts)
  onwards : {x y : System} → Reach opts x → Step x y → Reach opts y
