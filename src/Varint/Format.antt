-- ===== src/Varint/Format.antt =====
-- The encoding that the comment of varint.go draws, described without the code: a byte below
-- 240, or one above it followed by groups of seven bits whose last byte alone is below 128.
use spop.Base.{ℕ, zero, suc, ◌+◌, ◌*◌, ◌≤◌, ◌<◌, ◌≡◌, ap, List, [], ◌∷◌, arith, length, All, IsByte}

pub data IsGroups : List ℕ → Type 0 where
  last : (b : ℕ) → b < 128 → IsGroups (b ∷ [])
  more : (b : ℕ) {bs : List ℕ} → 128 ≤ b → b < 256 → IsGroups bs → IsGroups (b ∷ bs)

abbrev pub groups : List ℕ → ℕ
groups [] = 0
groups (b ∷ bs) = b + 128 * groups bs

pub data IsEncoding : List ℕ → Type 0 where
  short : (b : ℕ) → b < 240 → IsEncoding (b ∷ [])
  long : (b : ℕ) {bs : List ℕ} → 240 ≤ b → b < 256 → IsGroups bs → IsEncoding (b ∷ bs)

-- The number that an encoding stands for.
abbrev pub number : List ℕ → ℕ
number [] = 0
number (b ∷ bs) = b + 16 * groups bs

pub IsGroups-IsByte : {bs : List ℕ} → IsGroups bs → All IsByte bs
IsGroups-IsByte (last b h) = (omega arith, tt)
IsGroups-IsByte (more b lo hi g) = (hi, IsGroups-IsByte g)

pub IsEncoding-IsByte : {bs : List ℕ} → IsEncoding bs → All IsByte bs
IsEncoding-IsByte (short b h) = (omega arith, tt)
IsEncoding-IsByte (long b lo hi g) = (hi, IsGroups-IsByte g)

pub IsGroups-pos : {bs : List ℕ} → IsGroups bs → 0 < length bs
IsGroups-pos (last b h) = omega arith
IsGroups-pos (more b lo hi g) = omega arith

pub IsEncoding-pos : {bs : List ℕ} → IsEncoding bs → 0 < length bs
IsEncoding-pos (short b h) = omega arith
IsEncoding-pos (long b lo hi g) = omega arith

IsGroups-unique : {xs ys : List ℕ} → IsGroups xs → IsGroups ys → groups xs ≡ groups ys → xs ≡ ys
IsGroups-unique (last a h) (last b k) e = ap (λ (x : ℕ). x ∷ []) (omega arith)
IsGroups-unique (last a h) (more b lo hi g) e = absurd (omega arith)
IsGroups-unique (more a lo hi f) (last b k) e = absurd (omega arith)
IsGroups-unique (more a {bs = xs} lo hi f) (more b {bs = ys} lo' hi' g) e =
    let head : a ≡ b = omega arith in
    let tail : xs ≡ ys = IsGroups-unique f g (omega arith) in λ i. head i ∷ tail i

-- A number has one encoding.
pub IsEncoding-unique :
    {xs ys : List ℕ} → IsEncoding xs → IsEncoding ys → number xs ≡ number ys → xs ≡ ys
IsEncoding-unique (short a h) (short b k) e = ap (λ (x : ℕ). x ∷ []) (omega arith)
IsEncoding-unique (short a h) (long b lo hi g) e = absurd (omega arith)
IsEncoding-unique (long a lo hi f) (short b k) e = absurd (omega arith)
IsEncoding-unique (long a {bs = xs} lo hi f) (long b {bs = ys} lo' hi' g) e =
    let head : a ≡ b = omega arith in
    let tail : xs ≡ ys = IsGroups-unique f g (omega arith) in λ i. head i ∷ tail i

-- The least number whose groups take k + 1 bytes.
abbrev pub least_groups : ℕ → ℕ
least_groups zero = 0
least_groups (suc k) = 128 + 128 * least_groups k

pub IsGroups-range :
    {bs : List ℕ} (k : ℕ)
    → IsGroups bs
    → length bs ≡ suc k
    → (least_groups k ≤ groups bs) × (groups bs < least_groups (suc k))
IsGroups-range zero (last b h) e = omega arith
IsGroups-range (suc k) (last b h) e = absurd (omega arith)
IsGroups-range zero (more b {bs} lo hi g) e = absurd (omega (arith, IsGroups-pos g))
IsGroups-range (suc k) (more b lo hi g) e = omega (arith, IsGroups-range k g (omega arith))
