-- ===== src/Agent/Bounds.antt =====
-- The pauses of `Serve`.
use spop.Base.{
  ℕ, ◌≤◌, ◌≡◌, refl, subst, Bool, true, false, List, [], ◌∷◌, ◌++◌, Option, none, some, ◌⊎◌, inl,
  inr, arith, if◌then◌else◌, All,
}
use spop.Agent.{
  AgentOption, Agent, AcceptError, is_transient, min_accept_backoff, max_accept_backoff,
  next_accept_backoff, conn_limit,
}
use spop.Agent.Serving.{
  Serving, acquiring, selecting, accepting, pausing, tracking, served, System, acquire_conn,
  accept_failed, Serves, acquires, selects_slot, selects_done, fails, accepts, resumes, gives_up,
  refuses, Step, starts, serves, tracks, forgets, releases, shuts_down, Reach, start, onwards,
}

-- A backoff is none or within the bounds; a pause is within the bounds.
abbrev pub IsBackoff : ℕ → Type 0
IsBackoff d = (d ≡ 0) ⊎ ((min_accept_backoff ≤ d) × (d ≤ max_accept_backoff))

abbrev pub IsPaced : Serving → Type 0
IsPaced (acquiring d) = IsBackoff d
IsPaced (selecting d) = IsBackoff d
IsPaced (accepting d) = IsBackoff d
IsPaced (pausing d) = (min_accept_backoff ≤ d) × (d ≤ max_accept_backoff)
IsPaced _ = Unit {0}

next_accept_backoff_bounds :
    (d : ℕ)
    → IsBackoff d
    → (min_accept_backoff ≤ next_accept_backoff d) × (next_accept_backoff d ≤ max_accept_backoff)
unfolding next_accept_backoff
next_accept_backoff_bounds d (inl e) = ground arith
next_accept_backoff_bounds d (inr (lo, hi)) = ground arith

acquire_conn-IsPaced : (a : Agent) (d : ℕ) → IsBackoff d → IsPaced (acquire_conn a d)
unfolding acquire_conn
acquire_conn-IsPaced a d h = go (conn_limit a.options.max_connections) a.draining
  where
    inner : Bool → Serving
    inner b = if b then served none else selecting d

    outcome : Bool → Option ℕ → Serving
    outcome b none = accepting d
    outcome b (some limit) = inner b

    go : (o : Option ℕ) (b : Bool) → IsPaced (outcome b o)
    go none b = h
    go (some limit) true = tt
    go (some limit) false = h

accept_failed-IsPaced :
    (a : Agent) (d : ℕ) (e : AcceptError) → IsBackoff d → IsPaced (accept_failed a d e)
unfolding accept_failed
accept_failed-IsPaced a d e h = go a.draining (is_transient e)
  where
    inner : Bool → Serving
    inner b = if b then pausing (next_accept_backoff d) else served (some e)

    go : (b b' : Bool) → IsPaced (if b then served none else inner b')
    go true b = tt
    go false true = next_accept_backoff_bounds d h
    go false false = tt

Serves-IsPaced : {a a' : Agent} {s s' : Serving} → Serves a s a' s' → IsPaced s → IsPaced s'
Serves-IsPaced {a} (acquires d) h = acquire_conn-IsPaced a d h
Serves-IsPaced (selects_slot d limit e room) h = h
Serves-IsPaced (selects_done d e) h = tt
Serves-IsPaced {a} (fails d e) h = accept_failed-IsPaced a d e h
Serves-IsPaced (accepts d c) h = tt
Serves-IsPaced (resumes d) h = inr h
Serves-IsPaced (gives_up d e) h = tt
Serves-IsPaced (refuses c e) h = tt

All-middle :
    (before after : List Serving) (s s' : Serving)
    → (IsPaced s → IsPaced s')
    → All IsPaced (before ++ (s ∷ after))
    → All IsPaced (before ++ (s' ∷ after))
All-middle [] after s s' f (h, hs) = (f h, hs)
All-middle (x ∷ before) after s s' f (h, hs) = (h, All-middle before after s s' f hs)

Step-IsPaced : {x y : System} → Step x y → All IsPaced x.serving → All IsPaced y.serving
Step-IsPaced (starts l a e) h = (inl refl, h)
Step-IsPaced (serves before after s s' a e t) h =
    All-middle before after s s' (Serves-IsPaced t) (subst (All IsPaced) e h)
Step-IsPaced (tracks before after c a e fresh t) h =
    All-middle before after (tracking c) (acquiring 0) (λ _. inl refl) (subst (All IsPaced) e h)
Step-IsPaced (forgets before after c e) h = h
Step-IsPaced (releases before after e) h = h
Step-IsPaced shuts_down h = h

-- Every pause behind a failed `Accept` lasts between the two bounds, 5 ms and 1 s, however many
-- failures came before it.
pub Reach-IsPaced : (opts : List AgentOption) (x : System) → Reach opts x → All IsPaced x.serving
Reach-IsPaced opts _ start = tt
Reach-IsPaced opts x (onwards r st) = Step-IsPaced st (Reach-IsPaced opts _ r)
