-- ===== src/Agent/Roster.antt =====
-- The table of connections against the goroutines that handle them.
use spop.Base.{
  ℕ, suc, ◌+◌, ◌-◌, ◌≤◌, ◌≡◌, refl, sym, subst, ap, ◌∙◌, Bool, true, false, List, [], ◌∷◌, ◌++◌,
  Option, none, some, arith, Bool-cases, ==_iff, inl, inr, ◌==◌, if◌then◌else◌,
}
use spop.Agent.{
  Agent, conn_limit, release_conn, take_conn, has_conn, without, track, forget, add_listener,
  begin_shutdown,
}
use spop.Agent.Serving.{
  Serving, Live, handled, forgotten, System, Serves, acquires, selects_slot, selects_done, fails,
  accepts, resumes, gives_up, refuses, Step, starts, serves, tracks, forgets, releases, shuts_down,
}
use spop.Agent.Slots.{running, running-append}

-- How often a number stands in a list.
abbrev pub occurs : List ℕ → ℕ → ℕ
occurs [] d = 0
occurs (c ∷ conns) d = (if c == d then 1 else 0) + occurs conns d

-- The connections that are being handled.
abbrev pub names : List Live → List ℕ
names [] = []
names (handled c ∷ live) = c ∷ names live
names (forgotten ∷ live) = names live

-- The table holds each connection that is handled, once, and no other; the WaitGroup counts them.
pub record Roster (x : System) : Type 0 where
  pub holds : (d : ℕ) → occurs x.agent.conns d ≡ occurs (names x.live) d
  pub once : (d : ℕ) → occurs x.agent.conns d ≤ 1
  pub waits : x.agent.waiting ≡ running x.live

occurs-without :
    (conns : List ℕ) (c d : ℕ) → occurs (without conns c) d ≡ (if c == d then 0 else occurs conns d)
unfolding without
occurs-without [] c d = ground arith
occurs-without (e ∷ conns) c d = ground (arith, occurs-without conns c d)

has_conn-occurs : (conns : List ℕ) (c : ℕ) → has_conn conns c ≡ false → occurs conns c ≡ 0
unfolding has_conn
has_conn-occurs [] c e = refl
has_conn-occurs (d ∷ conns) c e = ground (arith, has_conn-occurs conns c)

pub occurs-handled :
    (before after : List Live) (c d : ℕ)
    → occurs (names (before ++ handled c ∷ after)) d
      ≡ (if c == d then 1 else 0) + occurs (names (before ++ after)) d
occurs-handled [] after c d = refl
occurs-handled (handled e ∷ before) after c d = omega (arith, occurs-handled before after c d)
occurs-handled (forgotten ∷ before) after c d = occurs-handled before after c d

pub names-forgotten :
    (before after : List Live) → names (before ++ forgotten ∷ after) ≡ names (before ++ after)
names-forgotten [] after = refl
names-forgotten (handled c ∷ before) after = ap (λ l. c ∷ l) (names-forgotten before after)
names-forgotten (forgotten ∷ before) after = names-forgotten before after

-- An operation that leaves the table, the WaitGroup and the context as they are.
pub record SameRoster (a a' : Agent) : Type 0 where
  pub same_conns : a'.conns ≡ a.conns
  pub same_waiting : a'.waiting ≡ a.waiting
  pub same_cancelled : a'.cancelled ≡ a.cancelled

pub release_conn-SameRoster : (a : Agent) → SameRoster a (release_conn a)
unfolding release_conn
release_conn-SameRoster a = go (conn_limit a.options.max_connections)
  where
    outcome : Option ℕ → Agent
    outcome none = a
    outcome (some n) = record a { slots = a.slots - 1 }

    go : (o : Option ℕ) → SameRoster a (outcome o)
    go none = record { same_conns = refl; same_waiting = refl; same_cancelled = refl }
    go (some n) = record { same_conns = refl; same_waiting = refl; same_cancelled = refl }

take_conn-SameRoster : (a : Agent) → SameRoster a (take_conn a)
unfolding take_conn
take_conn-SameRoster a = go (conn_limit a.options.max_connections)
  where
    outcome : Option ℕ → Agent
    outcome none = a
    outcome (some n) = record a { slots = suc a.slots }

    go : (o : Option ℕ) → SameRoster a (outcome o)
    go none = record { same_conns = refl; same_waiting = refl; same_cancelled = refl }
    go (some n) = record { same_conns = refl; same_waiting = refl; same_cancelled = refl }

pub Serves-SameRoster : {a a' : Agent} {s s' : Serving} → Serves a s a' s' → SameRoster a a'
Serves-SameRoster (acquires d) = record {
  same_conns = refl;
  same_waiting = refl;
  same_cancelled = refl;
}
Serves-SameRoster {a} (selects_slot d n e free) = take_conn-SameRoster a
Serves-SameRoster (selects_done d e) = record {
  same_conns = refl;
  same_waiting = refl;
  same_cancelled = refl;
}
Serves-SameRoster {a} (fails d e) = release_conn-SameRoster a
Serves-SameRoster (accepts d n) = record {
  same_conns = refl;
  same_waiting = refl;
  same_cancelled = refl;
}
Serves-SameRoster (resumes d) = record {
  same_conns = refl;
  same_waiting = refl;
  same_cancelled = refl;
}
Serves-SameRoster (gives_up d e) = record {
  same_conns = refl;
  same_waiting = refl;
  same_cancelled = refl;
}
Serves-SameRoster {a} (refuses n e) = release_conn-SameRoster a

pub add_listener-SameRoster : (l : ℕ) (a a' : Agent) → add_listener l a ≡ some a' → SameRoster a a'
unfolding add_listener
add_listener-SameRoster l a a' e = go a.draining e
  where
    added : Agent
    added = record a { listeners = a.listeners ++ (l ∷ []) }

    go : (b : Bool) → (if b then none else some added) ≡ some a' → SameRoster a a'
    go true p = cc
    go false p =
        let same : added ≡ a' = cc p in
        subst (SameRoster a) same
          (record { same_conns = refl; same_waiting = refl; same_cancelled = refl })

pub begin_shutdown-SameRoster : (a : Agent) → SameRoster a (begin_shutdown a).0
unfolding begin_shutdown
begin_shutdown-SameRoster a = go a.draining
  where
    outcome : Bool → Agent × Option (List ℕ × List ℕ)
    outcome b =
        if b
        then (a, none)
        else (record a { draining = true; listeners = [] }, some (a.listeners, a.conns))

    go : (b : Bool) → SameRoster a (outcome b).0
    go true = record { same_conns = refl; same_waiting = refl; same_cancelled = refl }
    go false = record { same_conns = refl; same_waiting = refl; same_cancelled = refl }

-- A connection that is not in the table is put there, unless the agent drains.
pub record Tracked (c : ℕ) (a a' : Agent) : Type 0 where
  pub new_conns : a'.conns ≡ c ∷ a.conns
  pub new_waiting : a'.waiting ≡ suc a.waiting

track-Tracked :
    (c : ℕ) (a a' : Agent) → has_conn a.conns c ≡ false → track c a ≡ some a' → Tracked c a a'
unfolding track
track-Tracked c a a' fresh e = go a.draining e
  where
    added : Agent
    added = record a {
      conns = if has_conn a.conns c then a.conns else c ∷ a.conns;
      waiting = suc a.waiting;
    }

    go : (b : Bool) → (if b then none else some added) ≡ some a' → Tracked c a a'
    go true p = cc
    go false p =
        let same : added ≡ a' = cc p in
        subst (Tracked c a) same (record { new_conns = ground (arith, fresh); new_waiting = refl })

same_roster :
    {x : System} {a : Agent} {serving : List Serving}
    → SameRoster x.agent a
    → Roster x
    → Roster (record x { agent = a; serving = serving })
same_roster e r = record {
  holds = λ d. ap (λ l. occurs l d) e.same_conns ∙ r.holds d;
  once = λ d. omega (arith, r.once d, ap (λ l. occurs l d) e.same_conns);
  waits = e.same_waiting ∙ r.waits;
}

added_once :
    (conns : List ℕ) (c d : ℕ)
    → occurs conns c ≡ 0
    → occurs conns d ≤ 1
    → (if c == d then 1 else 0) + occurs conns d ≤ 1
added_once conns c d absent h = elim (Bool-cases (c == d)) [
  | inl e ↦
      let same : c ≡ d = (==_iff c d).0 e in rw e (omega (arith, absent, ap (occurs conns) same))
  | inr e ↦ rw e (omega arith)
]

-- What is left of a table of which one connection is forgotten, if it stood there once.
forgotten_once :
    (conns rest : List ℕ) (c d : ℕ)
    → occurs conns d ≡ (if c == d then 1 else 0) + occurs rest d
    → occurs conns d ≤ 1
    → occurs (without conns c) d ≡ occurs rest d
forgotten_once conns rest c d e h = elim (Bool-cases (c == d)) [
  | inl same ↦ omega (arith, rw same at (occurs-without conns c d), rw same at e)
  | inr other ↦ omega (arith, rw other at (occurs-without conns c d), rw other at e)
]

without_once : (conns : List ℕ) (c d : ℕ) → occurs conns d ≤ 1 → occurs (without conns c) d ≤ 1
without_once conns c d h = elim (Bool-cases (c == d)) [
  | inl same ↦ omega (arith, rw same at (occurs-without conns c d))
  | inr other ↦ omega (arith, rw other at (occurs-without conns c d))
]

pub Step-Roster : {x y : System} → Roster x → Step x y → Roster y
unfolding forget
Step-Roster {x} r (starts l a e) = same_roster (add_listener-SameRoster l x.agent a e) r
Step-Roster r (serves before after s s' a e t) = same_roster (Serves-SameRoster t) r
Step-Roster {x} r (tracks before after c a e fresh t) =
    let k = track-Tracked c x.agent a fresh t in
    record {
      holds = λ d. omega (arith, ap (λ l. occurs l d) k.new_conns, r.holds d);
      once = λ d.
          subst (λ l. occurs l d ≤ 1) (sym k.new_conns)
            (added_once x.agent.conns c d (has_conn-occurs x.agent.conns c fresh) (r.once d));
      waits = omega (arith, k.new_waiting, r.waits);
    }
Step-Roster {x} r (forgets before after c e) = record {
  holds = λ d.
      forgotten_once x.agent.conns (names (before ++ after)) c d
        (r.holds d ∙ ap (λ l. occurs (names l) d) e ∙ occurs-handled before after c d) (r.once d)
      ∙ ap (λ l. occurs l d) (sym (names-forgotten before after));
  once = λ d. without_once x.agent.conns c d (r.once d);
  waits = omega (
    arith,
    r.waits,
    ap running e,
    running-append before (handled c ∷ after),
    running-append before (forgotten ∷ after),
  );
}
Step-Roster {x} r (releases before after e) =
    let k = release_conn-SameRoster x.agent in
    record {
      holds = λ d.
          ap (λ l. occurs l d) k.same_conns
          ∙ r.holds d
          ∙ ap (λ l. occurs l d) (ap names e ∙ names-forgotten before after);
      once = λ d. omega (arith, r.once d, ap (λ l. occurs l d) k.same_conns);
      waits = omega (
        arith,
        k.same_waiting,
        r.waits,
        ap running e,
        running-append before (forgotten ∷ after),
        running-append before after,
      );
    }
Step-Roster {x} r shuts_down = same_roster (begin_shutdown-SameRoster x.agent) r
