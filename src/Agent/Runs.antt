-- ===== src/Agent/Runs.antt =====
-- Runs of agent.go at concrete inputs, and its theorems there.
use spop.Base.{◌^◌, ◌*◌, ◌≡◌, refl, List, [], ◌∷◌, All, arith, pos}
use spop.Agent.{
  Agent, AgentOption, with_max_connections, new_agent, set_options, emfile, is_transient,
  next_accept_backoff, max_accept_backoff, conn_limit, take_conn, release_conn, forget, without,
  add_listener,
}
use spop.Agent.Serving.{
  acquiring, selecting, accepting, pausing, System, acquire_conn, accept_failed, acquires,
  selects_slot, fails, starts, serves, Reach, start, onwards,
}
use spop.Agent.Bounds.{IsPaced, Reach-IsPaced}
use spop.Base.{◌≤◌, true, false, none, some}
use spop.Agent.Serving.{served, gives_up, handled}
use spop.Agent.Slots.{running}
use spop.Agent.Draining.{Steps, none_taken, taken, Steps-Winds}
use spop.Agent.Shutdown
use spop.Agent.Shutdown.{Ending, returned}
use spop.Agent.Roster.{Roster}
use spop.Agent.Capacity.{Counts, Reach-Counts}

backoff_grows : next_accept_backoff (next_accept_backoff 0) ≡ 10 ^ 7
unfolding next_accept_backoff
backoff_grows = refl

backoff_stops : next_accept_backoff (9 * 10 ^ 8) ≡ max_accept_backoff
unfolding next_accept_backoff
backoff_stops = refl

table_after : (forget 7 (record (new_agent []) { conns = 8 ∷ 7 ∷ []; waiting = 2 })).conns ≡ 8 ∷ []
unfolding forget without
table_after = refl

abbrev one_at_a_time : List AgentOption
one_at_a_time = with_max_connections (pos 1) ∷ []

-- An agent of one connection: `Serve` has taken the slot and failed to accept.
abbrev one : Agent
one = record (new_agent one_at_a_time) { listeners = 3 ∷ [] }

abbrev paused : System
paused = record {
  agent = release_conn (take_conn one);
  serving = accept_failed (take_conn one) 0 emfile ∷ [];
  live = [];
}

paused_stage : paused.serving ≡ pausing (5 * 10 ^ 6) ∷ []
unfolding accept_failed take_conn conn_limit is_transient next_accept_backoff new_agent set_options
paused_stage = refl

paused-Reach : Reach one_at_a_time paused
unfolding add_listener acquire_conn conn_limit new_agent set_options
paused-Reach =
    onwards
      (onwards
        (onwards (onwards start (starts 3 one refl))
          (serves [] [] (acquiring 0) (acquire_conn one 0) one refl (acquires 0)))
        (serves [] [] (selecting 0) (accepting 0) (take_conn one) refl
          (selects_slot 0 1 refl (omega arith))))
      (serves [] [] (accepting 0) (accept_failed (take_conn one) 0 emfile)
        (release_conn (take_conn one)) refl (fails 0 emfile))

Reach-IsPaced_example : All IsPaced paused.serving
Reach-IsPaced_example = Reach-IsPaced one_at_a_time paused paused-Reach

Reach-Counts_example : Counts (new_agent one_at_a_time).options.max_connections 1 paused
Reach-Counts_example =
    Reach-Counts one_at_a_time 1 paused (unfold conn_limit new_agent set_options in refl)
      paused-Reach

-- The agent drains while `Serve` pauses, and the pause ends.
abbrev stopping : System
stopping = record paused {
  agent = record (release_conn (take_conn one)) { draining = true; listeners = [] };
}

abbrev stopped : System
stopped = record stopping { serving = served none ∷ [] }

stopped-Steps : Steps stopping stopped
unfolding accept_failed take_conn release_conn conn_limit is_transient next_accept_backoff new_agent
    set_options
stopped-Steps = taken none_taken (
    serves [] [] (pausing (5 * 10 ^ 6)) (served none) stopping.agent refl
      (gives_up (5 * 10 ^ 6) refl))

Steps-Winds_example :
    (stopped.agent.draining ≡ true)
    × (stopped.agent.listeners ≡ stopping.agent.listeners)
    × (running stopped.live ≤ running stopping.live)
Steps-Winds_example = Steps-Winds stopping stopped refl stopped-Steps

-- An agent without options that serves a listener and has a connection, on which the grace period
-- ends; a second call is made while the first one waits.
abbrev serving_one : Agent
serving_one = record (new_agent []) { listeners = 3 ∷ [] }

abbrev handling_one : Agent
handling_one = record serving_one { conns = 5 ∷ []; waiting = 1 }

abbrev drained : Agent
drained = record handling_one { draining = true; listeners = [] }

abbrev left_over : Ending
left_over = record {
  system = record {
    agent = record drained { cancelled = true };
    serving = acquiring 0 ∷ [];
    live = handled 5 ∷ [];
  };
  stopping = some (returned false);
  taken_over = 3 ∷ [];
  closed_listeners = 3 ∷ [];
  woken = 5 ∷ [];
  closed = 5 ∷ [];
  repeats = 1;
}
