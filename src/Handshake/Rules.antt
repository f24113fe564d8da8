-- ===== src/Handshake/Rules.antt =====
-- `negotiate` as the rules of a handshake, tried in the order of their constructors.
use spop.Base.{
  ℕ, IsU32, ◌≤◌, ◌<◌, ◌≡◌, ◌≢◌, refl, subst, false, List, Option, none, some, arith, min, ◌↔◌, ◌⊎◌,
  inl, inr, ltb, ltb→lt, ltb→le, Bool-cases, codes, if◌then◌else◌,
}
use spop.TypedData.{Value, string, uint32}
use spop.Kv.{get}
use spop.Frame.{Frame, max_frame_size}
use spop.Handshake.{
  Notice, min_frame_size, status_no_version, status_bad_version, status_no_max_frame_size,
  status_bad_frame_size, status_no_capabilities, no_versions, no_max_frame_size,
  no_usable_max_frame_size, no_capabilities, bad_version, bad_frame_size, Negotiation, agreed,
  disconnect, as_string, as_uint32, string_item, split_list, version_supported, check_versions,
  check_max_frame_size, check_frame_size, check_capabilities, negotiate,
}
use spop.Handshake.Versions.{AnyServes, version_supported-AnyServes}

abbrev pub HasString : Frame → List ℕ → List ℕ → Type 0
HasString f name s = get f.kv name ≡ some (string s)

abbrev pub LacksString : Frame → List ℕ → Type 0
LacksString f name = (s : List ℕ) → get f.kv name ≢ some (string s)

-- The HAPROXY-HELLO names a version that the agent serves.
abbrev pub IsServed : Frame → Type 0
IsServed f =
    (list : List ℕ) × HasString f (codes "supported-versions") list × AnyServes (split_list list)

abbrev pub HasFrameSize : Frame → ℕ → Type 0
HasFrameSize f n = get f.kv (codes "max-frame-size") ≡ some (uint32 n)

-- What each HAPROXY-HELLO is answered with.
pub data Verdict (f : Frame) : Negotiation → Type 0 where
  versions_missing :
      LacksString f (codes "supported-versions")
      → Verdict f (disconnect status_no_version no_versions)
  version_refused :
      {list : List ℕ}
      → HasString f (codes "supported-versions") list
      → (AnyServes (split_list list) → ⊥)
      → Verdict f (disconnect status_bad_version (bad_version list))
  size_missing :
      IsServed f
      → get f.kv (codes "max-frame-size") ≡ none
      → Verdict f (disconnect status_no_max_frame_size no_max_frame_size)
  size_mistyped :
      {v : Value}
      → IsServed f
      → get f.kv (codes "max-frame-size") ≡ some v
      → ((n : ℕ) → v ≢ uint32 n)
      → Verdict f (disconnect status_no_max_frame_size no_usable_max_frame_size)
  size_too_low :
      {n : ℕ}
      → IsServed f
      → HasFrameSize f n
      → n < min_frame_size
      → Verdict f (disconnect status_bad_frame_size (bad_frame_size n))
  capabilities_missing :
      {n : ℕ}
      → IsServed f
      → HasFrameSize f n
      → min_frame_size ≤ n
      → LacksString f (codes "capabilities")
      → Verdict f (disconnect status_no_capabilities no_capabilities)
  accepted :
      {n : ℕ} {list : List ℕ}
      → IsServed f
      → HasFrameSize f n
      → min_frame_size ≤ n
      → HasString f (codes "capabilities") list
      → Verdict f (agreed (min n max_frame_size))

string_item-cases :
    (f : Frame) (name : List ℕ)
    → ((string_item f name ≡ none) × LacksString f name)
      ⊎ ((s : List ℕ) × (string_item f name ≡ some s) × HasString f name s)
unfolding string_item as_string
string_item-cases f name = go (get f.kv name) refl
  where
    go :
        (o : Option Value)
        → get f.kv name ≡ o
        → ((as_string o ≡ none) × LacksString f name)
          ⊎ ((s : List ℕ) × (as_string o ≡ some s) × HasString f name s)
    go none e = inl (refl, λ s p. cc)
    go (some (string s)) e = inr (s, refl, e)
    go (some _) e = inl (refl, λ s p. cc)

lower : (n : ℕ) → (if ltb max_frame_size n then max_frame_size else n) ≡ min n max_frame_size
lower n = ground arith

check_capabilities-Verdict :
    (f : Frame) (n : ℕ)
    → IsServed f
    → HasFrameSize f n
    → min_frame_size ≤ n
    → Verdict f (check_capabilities f n)
unfolding check_capabilities
check_capabilities-Verdict f n served size enough =
    elim (string_item-cases f (codes "capabilities")) [
      | inl (e, lacks) ↦ rw (e, check_capabilities) (capabilities_missing served size enough lacks)
      | inr (s, e, has) ↦ rw (e, check_capabilities, lower n) (accepted served size enough has)
    ]

check_max_frame_size-Verdict :
    (f : Frame) (o : Option Value)
    → IsServed f
    → get f.kv (codes "max-frame-size") ≡ o
    → Verdict f (check_max_frame_size f o)
unfolding check_max_frame_size check_frame_size as_uint32
check_max_frame_size-Verdict f none served e = size_missing served e
check_max_frame_size-Verdict f (some (uint32 n)) served e =
    elim (Bool-cases (ltb n min_frame_size)) [
      | inl low ↦ rw low (size_too_low served e (ltb→lt n min_frame_size low))
      | inr high ↦ rw high (check_capabilities-Verdict f n served e (ltb→le n min_frame_size high))
    ]
check_max_frame_size-Verdict f (some v) served e = size_mistyped {v = v} served e (λ n p. cc)

negotiate-Verdict' : (f : Frame) → Verdict f (negotiate f)
unfolding negotiate check_versions
negotiate-Verdict' f = elim (string_item-cases f (codes "supported-versions")) [
  | inl (e, lacks) ↦ rw e (versions_missing lacks)
  | inr (list, e, has) ↦ elim (Bool-cases (version_supported list)) [
    | inl good ↦
        rw (e, good)
          (check_max_frame_size-Verdict f (get f.kv (codes "max-frame-size"))
            (list, has, (version_supported-AnyServes list).0 good) refl)
    | inr bad ↦
        rw (e, bad)
          (version_refused has λ any. let good = (version_supported-AnyServes list).1 any in cc)
  ]
]

-- A size that was agreed on is within the bounds of the protocol and of the agent.
abbrev pub IsFrameSize : ℕ → Type 0
IsFrameSize n = (min_frame_size ≤ n) × (n ≤ max_frame_size)

agreed-IsFrameSize :
    (f : Frame) (v : Negotiation) (size : ℕ) → Verdict f v → v ≡ agreed size → IsFrameSize size
agreed-IsFrameSize f _ size (accepted {n} served e enough has) p =
    let same : min n max_frame_size ≡ size = cc p in omega arith
agreed-IsFrameSize f _ size (versions_missing h) p = cc
agreed-IsFrameSize f _ size (version_refused h k) p = cc
agreed-IsFrameSize f _ size (size_missing h k) p = cc
agreed-IsFrameSize f _ size (size_mistyped h k l) p = cc
agreed-IsFrameSize f _ size (size_too_low h k l) p = cc
agreed-IsFrameSize f _ size (capabilities_missing h k l o) p = cc

pub negotiate-IsFrameSize : (f : Frame) (size : ℕ) → negotiate f ≡ agreed size → IsFrameSize size
negotiate-IsFrameSize f size e = agreed-IsFrameSize f (negotiate f) size (negotiate-Verdict' f) e

-- The status code of a refusal fits its field.
refusal-IsU32 :
    (f : Frame) (v : Negotiation) (code : ℕ) (notice : Notice)
    → Verdict f v
    → v ≡ disconnect code notice
    → IsU32 code
refusal-IsU32 f _ code notice (accepted served e enough has) p = cc
refusal-IsU32 f _ code notice (versions_missing h) p =
    let same : status_no_version ≡ code = cc p in omega arith
refusal-IsU32 f _ code notice (version_refused h k) p =
    let same : status_bad_version ≡ code = cc p in omega arith
refusal-IsU32 f _ code notice (size_missing h k) p =
    let same : status_no_max_frame_size ≡ code = cc p in omega arith
refusal-IsU32 f _ code notice (size_mistyped h k l) p =
    let same : status_no_max_frame_size ≡ code = cc p in omega arith
refusal-IsU32 f _ code notice (size_too_low h k l) p =
    let same : status_bad_frame_size ≡ code = cc p in omega arith
refusal-IsU32 f _ code notice (capabilities_missing h k l o) p =
    let same : status_no_capabilities ≡ code = cc p in omega arith

pub negotiate-IsU32 :
    (f : Frame) (code : ℕ) (notice : Notice) → negotiate f ≡ disconnect code notice → IsU32 code
negotiate-IsU32 f code notice e = refusal-IsU32 f (negotiate f) code notice (negotiate-Verdict' f) e

HasString→string_item :
    (f : Frame) (name s : List ℕ) → HasString f name s → string_item f name ≡ some s
unfolding string_item as_string
HasString→string_item f name s has = rw has refl

LacksString→string_item :
    (f : Frame) (name : List ℕ) → LacksString f name → string_item f name ≡ none
LacksString→string_item f name lacks = elim (string_item-cases f name) [
  | inl (e, _) ↦ e
  | inr (s, e, has) ↦ elim (lacks s has) [ ]
]

refused-false : (list : List ℕ) → (AnyServes (split_list list) → ⊥) → version_supported list ≡ false
refused-false list rejects = elim (Bool-cases (version_supported list)) [
  | inl good ↦ elim (rejects ((version_supported-AnyServes list).0 good)) [ ]
  | inr bad ↦ bad
]

served-negotiate :
    (f : Frame)
    → IsServed f
    → negotiate f ≡ check_max_frame_size f (get f.kv (codes "max-frame-size"))
unfolding negotiate check_versions
served-negotiate f (list, has, any) =
    rw
      (
        HasString→string_item f (codes "supported-versions") list has,
        (version_supported-AnyServes list).1 any,
      )
      refl

missing-negotiate :
    (f : Frame)
    → LacksString f (codes "supported-versions")
    → negotiate f ≡ disconnect status_no_version no_versions
unfolding negotiate check_versions
missing-negotiate f lacks = rw (LacksString→string_item f (codes "supported-versions") lacks) refl

refused-negotiate :
    (f : Frame) (list : List ℕ)
    → HasString f (codes "supported-versions") list
    → (AnyServes (split_list list) → ⊥)
    → negotiate f ≡ disconnect status_bad_version (bad_version list)
unfolding negotiate check_versions
refused-negotiate f list has rejects =
    rw (HasString→string_item f (codes "supported-versions") list has, refused-false list rejects)
      refl

mistyped :
    (f : Frame) (v : Value)
    → ((n : ℕ) → v ≢ uint32 n)
    → check_max_frame_size f (some v) ≡ disconnect status_no_max_frame_size no_usable_max_frame_size
unfolding check_max_frame_size check_frame_size as_uint32
mistyped f (uint32 n) h = elim (h n refl) [ ]
mistyped f v h = refl

Verdict→negotiate : (f : Frame) (v : Negotiation) → Verdict f v → negotiate f ≡ v
unfolding check_max_frame_size check_frame_size check_capabilities as_uint32
Verdict→negotiate f _ (versions_missing lacks) = missing-negotiate f lacks
Verdict→negotiate f _ (version_refused {list} has rejects) = refused-negotiate f list has rejects
Verdict→negotiate f _ (size_missing served e) = rw (served-negotiate f served, e) refl
Verdict→negotiate f _ (size_mistyped {v} served e other) =
    rw (served-negotiate f served, e) (mistyped f v other)
Verdict→negotiate f _ (size_too_low {n} served e low) =
    rw (served-negotiate f served, e) (ground arith)
Verdict→negotiate f _ (capabilities_missing {n} served e enough lacks) =
    rw (served-negotiate f served, e)
      (ground (arith, LacksString→string_item f (codes "capabilities") lacks))
Verdict→negotiate f _ (accepted {n} {list} served e enough has) =
    rw (served-negotiate f served, e)
      (ground (arith, HasString→string_item f (codes "capabilities") list has))

-- `negotiate` gives the one verdict that the rules of the handshake allow: they agree on the
-- smaller of the two maximum sizes just when the versions, a size of at least 256 and the
-- capabilities are there with their types, and otherwise the code names the first item, in this
-- order, that is missing, mistyped or out of range.
pub negotiate-Verdict : (f : Frame) (v : Negotiation) → (negotiate f ≡ v) ↔ Verdict f v
negotiate-Verdict f v = (λ e. subst (Verdict f) e (negotiate-Verdict' f), Verdict→negotiate f v)
