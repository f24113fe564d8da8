-- ===== src/Agent/Draining.antt =====
-- What an agent still does once `Shutdown` has begun.
use spop.Base.{
  ℕ, suc, ◌-◌, ◌≤◌, ◌≡◌, refl, sym, subst, ap, ◌∙◌, true, List, ◌∷◌, Option, none, some, arith,
}
use spop.Agent.{
  Agent, conn_limit, release_conn, take_conn, track, forget, add_listener, begin_shutdown,
}
use spop.Agent.Serving.{
  Serving, handled, forgotten, System, Serves, acquires, selects_slot, selects_done, fails, accepts,
  resumes, gives_up, refuses, Step, starts, serves, tracks, forgets, releases, shuts_down,
}
use spop.Agent.Slots.{running, running-append}

-- The agent drains, and its listeners are still those.
abbrev pub IsDraining : List ℕ → Agent → Type 0
IsDraining listeners a = (a.draining ≡ true) × (a.listeners ≡ listeners)

release_conn-IsDraining :
    (listeners : List ℕ) (a : Agent)
    → IsDraining listeners a
    → IsDraining listeners (release_conn a)
unfolding release_conn
release_conn-IsDraining listeners a h = go (conn_limit a.options.max_connections)
  where
    outcome : Option ℕ → Agent
    outcome none = a
    outcome (some n) = record a { slots = a.slots - 1 }

    go : (o : Option ℕ) → IsDraining listeners (outcome o)
    go none = h
    go (some n) = h

take_conn-IsDraining :
    (listeners : List ℕ) (a : Agent) → IsDraining listeners a → IsDraining listeners (take_conn a)
unfolding take_conn
take_conn-IsDraining listeners a h = go (conn_limit a.options.max_connections)
  where
    outcome : Option ℕ → Agent
    outcome none = a
    outcome (some n) = record a { slots = suc a.slots }

    go : (o : Option ℕ) → IsDraining listeners (outcome o)
    go none = h
    go (some n) = h

pub track_refuses : (c : ℕ) (a : Agent) → a.draining ≡ true → track c a ≡ none
unfolding track
track_refuses c a e = ground arith

pub add_listener_refuses : (l : ℕ) (a : Agent) → a.draining ≡ true → add_listener l a ≡ none
unfolding add_listener
add_listener_refuses l a e = ground arith

begin_shutdown_again : (a : Agent) → a.draining ≡ true → begin_shutdown a ≡ (a, none)
unfolding begin_shutdown
begin_shutdown_again a e = ground arith

Serves-IsDraining :
    {a a' : Agent} {s s' : Serving} (listeners : List ℕ)
    → IsDraining listeners a
    → Serves a s a' s'
    → IsDraining listeners a'
Serves-IsDraining listeners h (acquires d) = h
Serves-IsDraining {a} listeners h (selects_slot d n e free) = take_conn-IsDraining listeners a h
Serves-IsDraining listeners h (selects_done d e) = h
Serves-IsDraining {a} listeners h (fails d e) = release_conn-IsDraining listeners a h
Serves-IsDraining listeners h (accepts d n) = h
Serves-IsDraining listeners h (resumes d) = h
Serves-IsDraining listeners h (gives_up d e) = h
Serves-IsDraining {a} listeners h (refuses n e) = release_conn-IsDraining listeners a h

abbrev pub Winds : List ℕ → ℕ → System → Type 0
Winds listeners n y = IsDraining listeners y.agent × (running y.live ≤ n)

Step-Winds :
    {x y : System} (listeners : List ℕ) (n : ℕ)
    → Winds listeners n x
    → Step x y
    → Winds listeners n y
unfolding forget
Step-Winds {x} listeners n (h, le) (starts l a e) =
    cc (sym (add_listener_refuses l x.agent h.0) ∙ e)
Step-Winds listeners n (h, le) (serves before after s s' a e t) =
    (Serves-IsDraining listeners h t, le)
Step-Winds {x} listeners n (h, le) (tracks before after c a e fresh t) =
    cc (sym (track_refuses c x.agent h.0) ∙ t)
Step-Winds listeners n (h, le) (forgets before after c e) = (
  h,
  omega (
    arith,
    le,
    ap running e,
    running-append before (handled c ∷ after),
    running-append before (forgotten ∷ after),
  ),
)
Step-Winds {x} listeners n (h, le) (releases before after e) = (
  release_conn-IsDraining listeners x.agent h,
  omega (
    arith,
    le,
    ap running e,
    running-append before (forgotten ∷ after),
    running-append before after,
  ),
)
Step-Winds {x} listeners n (h, le) shuts_down =
    (subst (IsDraining listeners) (sym (ap (λ r. r.0) (begin_shutdown_again x.agent h.0))) h, le)

pub data Steps (x : System) : System → Type 0 where
  none_taken : Steps x x
  taken : {y z : System} → Steps x y → Step y z → Steps x z

-- Once an agent drains it drains for good: whatever its goroutines do from there, no listener is
-- added, and it never handles more connections than it did then.
pub Steps-Winds :
    (x y : System)
    → x.agent.draining ≡ true
    → Steps x y
    → (y.agent.draining ≡ true)
      × (y.agent.listeners ≡ x.agent.listeners)
      × (running y.live ≤ running x.live)
Steps-Winds x y e steps = let (h, le) = go y steps in (h.0, h.1, le)
  where
    go : (z : System) → Steps x z → Winds x.agent.listeners (running x.live) z
    go z none_taken = ((e, refl), omega arith)
    go z (taken r st) = Step-Winds x.agent.listeners (running x.live) (go _ r) st
