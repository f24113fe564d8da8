-- ===== src/Agent/Capacity.antt =====
-- MaxConnections and the WaitGroup of an agent.
use spop.Base.{
  ℕ, ◌+◌, ◌≤◌, ◌≡◌, refl, ap, ◌∙◌, List, ◌∷◌, ◌++◌, some, arith, length, length-append, ℤ,
}
use spop.Agent.{AgentOption, new_agent, Agent, conn_limit, forget}
use spop.Agent.Serving.{
  Serving, acquiring, tracking, handled, forgotten, System, Step, starts, serves, tracks, forgets,
  releases, shuts_down, Reach, start, onwards,
}
use spop.Agent.Slots.{
  hold, held, running, held-append, running-append, release_conn-Counted, track-Counted,
  add_listener-Counted, begin_shutdown-Counted, Balanced, Serves-Balanced,
}

-- The slots taken are those of the calls of `Serve` that hold one and of the connections whose
-- goroutine has not given its own back; the WaitGroup counts the connections that are handled.
pub record Counts (max_connections : ℤ) (limit : ℕ) (x : System) : Type 0 where
  pub same_max : x.agent.options.max_connections ≡ max_connections
  pub taken : x.agent.slots ≡ held x.serving + length x.live
  pub within : x.agent.slots ≤ limit
  pub waits : x.agent.waiting ≡ running x.live

-- The agent's side of a step: its slots and its WaitGroup balance what the goroutines hold.
serve_step :
    {max_connections : ℤ} (limit : ℕ) (x : System) (a : Agent) (before after : List Serving)
    (s s' : Serving)
    → x.serving ≡ before ++ (s ∷ after)
    → Counts max_connections limit x
    → Balanced limit x.agent s a s'
    → Counts max_connections limit (record x { agent = a; serving = before ++ (s' ∷ after) })
serve_step limit x a before after s s' e h b = record {
  same_max = b.max_same ∙ h.same_max;
  taken = omega (
    arith,
    b.balance,
    h.taken,
    ap held e,
    held-append before (s ∷ after),
    held-append before (s' ∷ after),
  );
  within = b.bounded;
  waits = b.waiting_same ∙ h.waits;
}

room_for :
    {max_connections : ℤ} (limit : ℕ) (x : System) (before after : List Serving) (s : Serving)
    → x.serving ≡ before ++ (s ∷ after)
    → Counts max_connections limit x
    → hold s ≤ x.agent.slots
room_for limit x before after s e h =
    omega (arith, h.taken, ap held e, held-append before (s ∷ after))

Step-Counts :
    {x y : System} (max_connections : ℤ) (limit : ℕ)
    → conn_limit max_connections ≡ some limit
    → Counts max_connections limit x
    → Step x y
    → Counts max_connections limit y
unfolding forget
Step-Counts {x} max_connections limit c h (starts l a e) =
    let r = add_listener-Counted l x.agent a e in
    record {
      same_max = r.max_kept ∙ h.same_max;
      taken = omega (arith, r.slots_now, h.taken);
      within = omega (arith, r.slots_now, h.within);
      waits = r.waiting_now ∙ h.waits;
    }
Step-Counts {x} max_connections limit c h (serves before after s s' a e t) =
    serve_step limit x a before after s s' e h (
      Serves-Balanced limit (ap conn_limit h.same_max ∙ c) (room_for limit x before after s e h)
        h.within t)
Step-Counts {x} max_connections limit c h (tracks before after n a e fresh t) =
    let r = track-Counted n x.agent a t in
    record {
      same_max = r.max_kept ∙ h.same_max;
      taken = omega (
        arith,
        r.slots_now,
        h.taken,
        ap held e,
        held-append before (tracking n ∷ after),
        held-append before (acquiring 0 ∷ after),
      );
      within = omega (arith, r.slots_now, h.within);
      waits = omega (arith, r.waiting_now, h.waits);
    }
Step-Counts {x} max_connections limit c h (forgets before after n e) = record {
  same_max = h.same_max;
  taken = omega (
    arith,
    h.taken,
    ap length e,
    length-append before (handled n ∷ after),
    length-append before (forgotten ∷ after),
  );
  within = h.within;
  waits = omega (
    arith,
    h.waits,
    ap running e,
    running-append before (handled n ∷ after),
    running-append before (forgotten ∷ after),
  );
}
Step-Counts {x} max_connections limit c h (releases before after e) =
    let r = release_conn-Counted x.agent limit (ap conn_limit h.same_max ∙ c) in
    record {
      same_max = r.max_kept ∙ h.same_max;
      taken = omega (
        arith,
        r.slots_now,
        h.taken,
        ap length e,
        length-append before (forgotten ∷ after),
        length-append before after,
      );
      within = omega (arith, r.slots_now, h.within);
      waits = omega (
        arith,
        r.waiting_now,
        h.waits,
        ap running e,
        running-append before (forgotten ∷ after),
        running-append before after,
      );
    }
Step-Counts {x} max_connections limit c h shuts_down =
    let r = begin_shutdown-Counted x.agent in
    record {
      same_max = r.max_kept ∙ h.same_max;
      taken = omega (arith, r.slots_now, h.taken);
      within = omega (arith, r.slots_now, h.within);
      waits = r.waiting_now ∙ h.waits;
    }

-- With a positive MaxConnections every slot taken is held by a call of `Serve` that accepts or by
-- a connection's goroutine, and there are never more of both; the WaitGroup that `Shutdown` waits
-- for counts the connections that are being handled.
pub Reach-Counts :
    (opts : List AgentOption) (limit : ℕ) (x : System)
    → conn_limit (new_agent opts).options.max_connections ≡ some limit
    → Reach opts x
    → Counts (new_agent opts).options.max_connections limit x
unfolding new_agent
Reach-Counts opts limit _ c start = record {
  same_max = refl;
  taken = refl;
  within = omega arith;
  waits = refl;
}
Reach-Counts opts limit x c (onwards r st) =
    Step-Counts (new_agent opts).options.max_connections limit c (Reach-Counts opts limit _ c r) st
