-- ===== src/Agent/Slots.antt =====
-- What the operations of an agent do to the slots and to the WaitGroup.
use spop.Base.{
  ℕ, suc, ◌+◌, ◌-◌, ◌≤◌, ◌≡◌, refl, sym, subst, ◌∙◌, Bool, true, false, List, [], ◌∷◌, ◌++◌, Option,
  none, some, arith, if◌then◌else◌,
}
use spop.Agent.{
  Agent, AcceptError, is_transient, next_accept_backoff, conn_limit, release_conn, take_conn,
  has_conn, track, add_listener, begin_shutdown,
}
use spop.Agent.Serving.{
  Serving, acquiring, selecting, accepting, pausing, tracking, served, Live, handled, forgotten,
  acquire_conn, accept_failed, Serves, acquires, selects_slot, selects_done, fails, accepts,
  resumes, gives_up, refuses,
}

-- The slots that calls of `Serve` hold, and the connections that the WaitGroup counts.
abbrev pub hold : Serving → ℕ
hold (accepting b) = 1
hold (tracking c) = 1
hold _ = 0

abbrev pub held : List Serving → ℕ
held [] = 0
held (s ∷ serving) = hold s + held serving

abbrev pub count : Live → ℕ
count (handled c) = 1
count forgotten = 0

abbrev pub running : List Live → ℕ
running [] = 0
running (l ∷ live) = count l + running live

pub held-append : (xs ys : List Serving) → held (xs ++ ys) ≡ held xs + held ys
held-append [] ys = omega arith
held-append (x ∷ xs) ys = omega (arith, held-append xs ys)

pub running-append : (xs ys : List Live) → running (xs ++ ys) ≡ running xs + running ys
running-append [] ys = omega arith
running-append (x ∷ xs) ys = omega (arith, running-append xs ys)

-- What an operation does to the counts.
pub record Counted (a a' : Agent) (slots waiting : ℕ) : Type 0 where
  pub max_kept : a'.options.max_connections ≡ a.options.max_connections
  pub slots_now : a'.slots ≡ slots
  pub waiting_now : a'.waiting ≡ waiting

pub release_conn-Counted :
    (a : Agent) (limit : ℕ)
    → conn_limit a.options.max_connections ≡ some limit
    → Counted a (release_conn a) (a.slots - 1) a.waiting
unfolding release_conn
release_conn-Counted a limit e = go (conn_limit a.options.max_connections) e
  where
    outcome : Option ℕ → Agent
    outcome none = a
    outcome (some n) = record a { slots = a.slots - 1 }

    go : (o : Option ℕ) → o ≡ some limit → Counted a (outcome o) (a.slots - 1) a.waiting
    go none p = cc
    go (some n) p = record { max_kept = refl; slots_now = refl; waiting_now = refl }

take_conn-Counted :
    (a : Agent) (limit : ℕ)
    → conn_limit a.options.max_connections ≡ some limit
    → Counted a (take_conn a) (suc a.slots) a.waiting
unfolding take_conn
take_conn-Counted a limit e = go (conn_limit a.options.max_connections) e
  where
    outcome : Option ℕ → Agent
    outcome none = a
    outcome (some n) = record a { slots = suc a.slots }

    go : (o : Option ℕ) → o ≡ some limit → Counted a (outcome o) (suc a.slots) a.waiting
    go none p = cc
    go (some n) p = record { max_kept = refl; slots_now = refl; waiting_now = refl }

pub track-Counted :
    (c : ℕ) (a a' : Agent) → track c a ≡ some a' → Counted a a' a.slots (suc a.waiting)
unfolding track
track-Counted c a a' e = go a.draining e
  where
    added : Agent
    added = record a {
      conns = if has_conn a.conns c then a.conns else c ∷ a.conns;
      waiting = suc a.waiting;
    }

    there : Counted a added a.slots (suc a.waiting)
    there = record { max_kept = refl; slots_now = refl; waiting_now = refl }

    go :
        (b : Bool)
        → (if b then none else some added) ≡ some a'
        → Counted a a' a.slots (suc a.waiting)
    go true p = cc
    go false p =
        let same : added ≡ a' = cc p in subst (λ x. Counted a x a.slots (suc a.waiting)) same there

pub add_listener-Counted :
    (l : ℕ) (a a' : Agent) → add_listener l a ≡ some a' → Counted a a' a.slots a.waiting
unfolding add_listener
add_listener-Counted l a a' e = go a.draining e
  where
    added : Agent
    added = record a { listeners = a.listeners ++ (l ∷ []) }

    there : Counted a added a.slots a.waiting
    there = record { max_kept = refl; slots_now = refl; waiting_now = refl }

    go : (b : Bool) → (if b then none else some added) ≡ some a' → Counted a a' a.slots a.waiting
    go true p = cc
    go false p =
        let same : added ≡ a' = cc p in subst (λ x. Counted a x a.slots a.waiting) same there

pub begin_shutdown-Counted : (a : Agent) → Counted a (begin_shutdown a).0 a.slots a.waiting
unfolding begin_shutdown
begin_shutdown-Counted a = go a.draining
  where
    outcome : Bool → Agent × Option (List ℕ × List ℕ)
    outcome b =
        if b
        then (a, none)
        else (record a { draining = true; listeners = [] }, some (a.listeners, a.conns))

    go : (b : Bool) → Counted a (outcome b).0 a.slots a.waiting
    go true = record { max_kept = refl; slots_now = refl; waiting_now = refl }
    go false = record { max_kept = refl; slots_now = refl; waiting_now = refl }

acquire_conn-hold :
    (a : Agent) (d limit : ℕ)
    → conn_limit a.options.max_connections ≡ some limit
    → hold (acquire_conn a d) ≡ 0
unfolding acquire_conn
acquire_conn-hold a d limit e = go a.draining (conn_limit a.options.max_connections) e
  where
    inner : Bool → Serving
    inner b = if b then served none else selecting d

    outcome : Bool → Option ℕ → Serving
    outcome b none = accepting d
    outcome b (some limit) = inner b

    go : (b : Bool) (o : Option ℕ) → o ≡ some limit → hold (outcome b o) ≡ 0
    go b none p = cc
    go true (some n) p = refl
    go false (some n) p = refl

accept_failed-hold : (a : Agent) (d : ℕ) (e : AcceptError) → hold (accept_failed a d e) ≡ 0
unfolding accept_failed
accept_failed-hold a d e = go a.draining (is_transient e)
  where
    inner : Bool → Serving
    inner b = if b then pausing (next_accept_backoff d) else served (some e)

    go : (b b' : Bool) → hold (if b then served none else inner b') ≡ 0
    go true b = refl
    go false true = refl
    go false false = refl

-- A stage of `Serve` takes a slot, gives it back, or leaves it.
pub record Balanced (limit : ℕ) (a : Agent) (s : Serving) (a' : Agent) (s' : Serving) : Type 0 where
  pub max_same : a'.options.max_connections ≡ a.options.max_connections
  pub balance : a'.slots + hold s ≡ a.slots + hold s'
  pub bounded : a'.slots ≤ limit
  pub waiting_same : a'.waiting ≡ a.waiting

unchanged :
    {limit : ℕ} {a : Agent} {s : Serving} (s' : Serving)
    → hold s ≡ hold s'
    → a.slots ≤ limit
    → Balanced limit a s a s'
unchanged s' e h = record {
  max_same = refl;
  balance = omega (arith, e);
  bounded = h;
  waiting_same = refl;
}

released :
    (limit : ℕ) (a : Agent) (s s' : Serving)
    → conn_limit a.options.max_connections ≡ some limit
    → hold s ≡ 1
    → hold s' ≡ 0
    → 1 ≤ a.slots
    → a.slots ≤ limit
    → Balanced limit a s (release_conn a) s'
released limit a s s' c p q room h =
    let r = release_conn-Counted a limit c in
    record {
      max_same = r.max_kept;
      balance = omega (arith, r.slots_now, p, q);
      bounded = omega (arith, r.slots_now);
      waiting_same = r.waiting_now;
    }

pub Serves-Balanced :
    {a a' : Agent} {s s' : Serving} (limit : ℕ)
    → conn_limit a.options.max_connections ≡ some limit
    → hold s ≤ a.slots
    → a.slots ≤ limit
    → Serves a s a' s'
    → Balanced limit a s a' s'
Serves-Balanced {a} limit c room h (acquires d) =
    unchanged (acquire_conn a d) (sym (acquire_conn-hold a d limit c)) h
Serves-Balanced {a} limit c room h (selects_slot d n e free) =
    let r = take_conn-Counted a limit c in
    let same : n ≡ limit = cc (sym e ∙ c) in
    record {
      max_same = r.max_kept;
      balance = omega (arith, r.slots_now);
      bounded = omega (arith, r.slots_now, same);
      waiting_same = r.waiting_now;
    }
Serves-Balanced limit c room h (selects_done d e) = unchanged (served none) refl h
Serves-Balanced {a} limit c room h (fails d e) =
    released limit a (accepting d) (accept_failed a d e) c refl (accept_failed-hold a d e) room h
Serves-Balanced limit c room h (accepts d n) = unchanged (tracking n) refl h
Serves-Balanced limit c room h (resumes d) = unchanged (acquiring d) refl h
Serves-Balanced limit c room h (gives_up d e) = unchanged (served none) refl h
Serves-Balanced {a} limit c room h (refuses n e) =
    released limit a (tracking n) (served none) c refl refl room h
