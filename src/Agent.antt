-- ===== src/Agent.antt =====
-- agent/agent.go: the agent's tables, its accept backoff and its connection slots. Each function
-- runs under the agent's lock or within one goroutine; Agent/Serving has the goroutines.
pub mod Serving
pub mod Shutdown
pub mod Roster
pub mod Ended
pub mod Bounds
pub mod Slots
pub mod Capacity
pub mod Draining
mod Runs
use spop.Base.{
  ℕ, zero, suc, ◌+◌, ◌-◌, ◌*◌, ◌^◌, Bool, true, false, List, [], ◌∷◌, ◌++◌, Option, none, some, ltb,
  ◌==◌, if◌then◌else◌, ℤ, pos, negsuc,
}
use spop.Worker.{Timeouts, Config}

-- Durations are nanoseconds.
abbrev pub min_accept_backoff : ℕ
min_accept_backoff = 5 * 10 ^ 6

abbrev pub max_accept_backoff : ℕ
max_accept_backoff = 10 ^ 9

-- `nextAcceptBackoff`
unfoldable pub next_accept_backoff : ℕ → ℕ
next_accept_backoff d =
    if d == 0
    then min_accept_backoff
    else if ltb max_accept_backoff (d * 2)
    then max_accept_backoff
    else d * 2

-- The errors of `Accept` that the agent tells apart: one whose `Timeout()` is true, the five of
-- `transientAcceptErrors`, and every other.
pub data AcceptError : Type 0 where
  timeout eintr emfile enfile enobufs enomem : AcceptError
  other : ℕ → AcceptError

-- `isTransientAcceptError`
unfoldable pub is_transient : AcceptError → Bool
is_transient (other e) = false
is_transient _ = true

abbrev pub default_handshake_timeout : ℤ
default_handshake_timeout = pos (10 * 10 ^ 9)

abbrev pub default_write_timeout : ℤ
default_write_timeout = pos (10 * 10 ^ 9)

abbrev pub default_max_in_flight : ℤ
default_max_in_flight = pos 20

-- `Option`: the five functions that make one, each of which sets a field.
pub data AgentOption : Type 0 where
  with_handshake_timeout with_idle_timeout with_write_timeout : ℤ → AgentOption
  with_max_in_flight with_max_connections : ℤ → AgentOption

-- The fields of an agent that options set.
pub record Options : Type 0 where
  pub timeouts : Timeouts
  pub max_in_flight : ℤ
  pub max_connections : ℤ

abbrev pub default_options : Options
default_options = record {
  timeouts = record {
    handshake = default_handshake_timeout;
    idle = pos 0;
    write = default_write_timeout;
  };
  max_in_flight = default_max_in_flight;
  max_connections = pos 0;
}

unfoldable pub set_option : AgentOption → Options → Options
set_option (with_handshake_timeout d) o = record o {
  timeouts = record o.timeouts { handshake = d };
}
set_option (with_idle_timeout d) o = record o { timeouts = record o.timeouts { idle = d } }
set_option (with_write_timeout d) o = record o { timeouts = record o.timeouts { write = d } }
set_option (with_max_in_flight n) o = record o { max_in_flight = n }
set_option (with_max_connections n) o = record o { max_connections = n }

-- The loop of `New` over its options.
unfoldable pub set_options : List AgentOption → Options → Options
unfolding set_option
set_options [] o = o
set_options (opt ∷ opts) o = set_options opts (set_option opt o)

-- A listener and a connection are known by a number. `waiting` is the count of the WaitGroup,
-- `slots` that of the slots taken; `done` is closed together with `draining` being set.
pub record Agent : Type 0 where
  pub options : Options
  pub draining : Bool
  pub listeners : List ℕ
  pub conns : List ℕ
  pub waiting : ℕ
  pub slots : ℕ
  pub cancelled : Bool

-- `New`
unfoldable pub new_agent : List AgentOption → Agent
new_agent opts = record {
  options = set_options opts default_options;
  draining = false;
  listeners = [];
  conns = [];
  waiting = 0;
  slots = 0;
  cancelled = false;
}

-- The configuration that `Serve` gives a worker.
unfoldable pub worker_config : Agent → Config
worker_config a = record { timeouts = a.options.timeouts; max_in_flight = a.options.max_in_flight }

-- The capacity of `connSlots`; `none` is the nil channel.
unfoldable pub conn_limit : ℤ → Option ℕ
conn_limit (pos zero) = none
conn_limit (pos (suc n)) = some (suc n)
conn_limit (negsuc n) = none

-- `releaseConn`
unfoldable pub release_conn : Agent → Agent
release_conn a = elim (conn_limit a.options.max_connections) [
  | none ↦ a
  | some n ↦ record a { slots = a.slots - 1 }
]

-- The send of `acquireConn` into `connSlots`, which has room.
unfoldable pub take_conn : Agent → Agent
take_conn a = elim (conn_limit a.options.max_connections) [
  | none ↦ a
  | some n ↦ record a { slots = suc a.slots }
]

-- The map of connections: setting a key, and `delete`.
unfoldable pub has_conn : List ℕ → ℕ → Bool
has_conn [] c = false
has_conn (d ∷ conns) c = let rest = has_conn conns c in if d == c then true else rest

unfoldable pub without : List ℕ → ℕ → List ℕ
without [] c = []
without (d ∷ conns) c = let rest = without conns c in if d == c then rest else d ∷ rest

-- `track`; `none` is false.
unfoldable pub track : ℕ → Agent → Option Agent
unfolding has_conn
track c a =
    if a.draining
    then none
    else some (record a {
      conns = if has_conn a.conns c then a.conns else c ∷ a.conns;
      waiting = suc a.waiting;
    })

-- `forget`
unfoldable pub forget : ℕ → Agent → Agent
unfolding without
forget c a = record a { conns = without a.conns c; waiting = a.waiting - 1 }

-- `addListener`; `none` is false.
unfoldable pub add_listener : ℕ → Agent → Option Agent
add_listener l a =
    if a.draining then none else some (record a { listeners = a.listeners ++ (l ∷ []) })

-- `Shutdown` under the lock: the agent, and the listeners to close and the connections to wake;
-- `none` where it has been called before.
unfoldable pub begin_shutdown : Agent → Agent × Option (List ℕ × List ℕ)
begin_shutdown a =
    if a.draining
    then (a, none)
    else (record a { draining = true; listeners = [] }, some (a.listeners, a.conns))
