-- ===== src/Pool/Tally.antt =====
-- Where the pooled objects are: in a pool, with an owner, or still to be made.
use spop.Base.{
  ℕ, zero, suc, ◌+◌, ◌≡◌, refl, ap, List, [], ◌∷◌, ◌++◌, Option, none, some, arith, ltb, ◌==◌,
  if◌then◌else◌,
}
use spop.Pool.{KvBox, MessageBox, FrameBox, RequestBox, Pools, take_at, pick}

abbrev pub one : ℕ → ℕ → ℕ
one id d = if id == d then 1 else 0

-- How often d is the number of an object that stands with another; a request only borrows.
abbrev pub kv_tally : KvBox → ℕ → ℕ
kv_tally b d = one b.id d

abbrev pub message_tally : MessageBox → ℕ → ℕ
message_tally m d = one m.id d + kv_tally m.kv d

abbrev pub tallies {ℓ} : {A : Type ℓ} → (A → ℕ → ℕ) → List A → ℕ → ℕ
tallies t [] d = 0
tallies t (x ∷ xs) d = t x d + tallies t xs d

abbrev pub frame_tally : FrameBox → ℕ → ℕ
frame_tally f d = one f.id d + kv_tally f.kv d + tallies message_tally f.messages d

abbrev pub request_tally : RequestBox → ℕ → ℕ
request_tally r d = one r.id d

-- The numbers that are still to be given.
abbrev pub unborn : ℕ → ℕ → ℕ
unborn next d = if ltb d next then 0 else 1

-- How often d stands in the pools or is still to be given.
abbrev pub total : Pools → ℕ → ℕ
total p d =
    tallies kv_tally p.kvs d
    + tallies message_tally p.messages d
    + tallies frame_tally p.frames d
    + tallies request_tally p.requests d
    + unborn p.next d

pub unborn-suc : (next d : ℕ) → unborn next d ≡ one next d + unborn (suc next) d
unborn-suc next d = ground arith

module _ {ℓ} {A : Type ℓ} (t : A → ℕ → ℕ) (d : ℕ) where
  take_at-tallies :
      (xs : List A) (n : ℕ) (y : A) (ys : List A)
      → take_at xs n ≡ some (y, ys)
      → tallies t xs d ≡ t y d + tallies t ys d
  unfolding take_at
  take_at-tallies [] n y ys e = cc
  take_at-tallies (x ∷ xs) zero y ys e = ground arith
  take_at-tallies (x ∷ xs) (suc n) y ys e = go (take_at xs n) (take_at-tallies xs n) e
    where
      outcome : Option (A × List A) → Option (A × List A)
      outcome none = none
      outcome (some (z, zs)) = some (z, x ∷ zs)

      go :
          (o : Option (A × List A))
          → ((z : A) (zs : List A) → o ≡ some (z, zs) → tallies t xs d ≡ t z d + tallies t zs d)
          → outcome o ≡ some (y, ys)
          → tallies t (x ∷ xs) d ≡ t y d + tallies t ys d
      go none p q = cc
      go (some (z, zs)) p q =
          let same : z ≡ y = cc q in
          let rest : x ∷ zs ≡ ys = cc q in
          omega (arith, p z zs refl, ap (λ b. t b d) same, ap (λ l. tallies t l d) rest)

  pub pick-tallies :
      (o : Option ℕ) (xs : List A) (y : A) (ys : List A)
      → pick o xs ≡ some (y, ys)
      → tallies t xs d ≡ t y d + tallies t ys d
  unfolding pick
  pick-tallies none xs y ys e = cc
  pick-tallies (some n) xs y ys e = take_at-tallies xs n y ys e

  pub tallies-append : (xs ys : List A) → tallies t (xs ++ ys) d ≡ tallies t xs d + tallies t ys d
  tallies-append [] ys = omega arith
  tallies-append (x ∷ xs) ys = omega (arith, tallies-append xs ys)
