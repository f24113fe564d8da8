-- ===== src/Handshake/Versions.antt =====
-- `versionSupported` and what it means for a list of versions.
use spop.Base.{
  ℕ, ◌<◌, ◌≡◌, refl, true, List, [], ◌∷◌, Option, none, some, arith, ◌↔◌, ◌⊎◌, inl, inr, ltb,
  ltb→lt, Bool-cases, ℤ, pos, negsuc,
}
use spop.Handshake.{
  version_major, parse_version, is_supported, split_list, supports_entry, any_supported,
  version_supported,
}

-- The entry is a version that is not below the agent's own.
abbrev pub Serves : List ℕ → Type 0
Serves entry =
    (major : ℕ) × (minor : ℤ) × (parse_version entry ≡ some (pos major, minor))
    × ((version_major < major) ⊎ ((major ≡ version_major) × (k : ℕ) × (minor ≡ pos k)))

pub data AnyServes : List (List ℕ) → Type 0 where
  here : {entry : List ℕ} {entries : List (List ℕ)} → Serves entry → AnyServes (entry ∷ entries)
  there :
      {entry : List ℕ} {entries : List (List ℕ)} → AnyServes entries → AnyServes (entry ∷ entries)

supports_entry→Serves :
    (o : Option (ℤ × ℤ))
    → supports_entry o ≡ true
    → (major : ℕ) × (minor : ℤ) × (o ≡ some (pos major, minor))
      × ((version_major < major) ⊎ ((major ≡ version_major) × (k : ℕ) × (minor ≡ pos k)))
unfolding supports_entry is_supported
supports_entry→Serves none e = cc
supports_entry→Serves (some (negsuc major, minor)) e = cc
supports_entry→Serves (some (pos major, negsuc minor)) e =
    (major, negsuc minor, refl, inl (ltb→lt 2 major e))
supports_entry→Serves (some (pos major, pos minor)) e = elim (Bool-cases (ltb 2 major)) [
  | inl more ↦ (major, pos minor, refl, inl (ltb→lt 2 major more))
  | inr other ↦ (major, pos minor, refl, inr (ground arith, minor, refl))
]

Serves→supports_entry :
    (entry : List ℕ) → Serves entry → supports_entry (parse_version entry) ≡ true
unfolding supports_entry is_supported
Serves→supports_entry entry (major, pos minor, e, inl more) = rw e (ground arith)
Serves→supports_entry entry (major, negsuc minor, e, inl more) = rw e (ground arith)
Serves→supports_entry entry (major, minor, e, inr (same, k, p)) = rw (e, p, same) refl

any_supported→AnyServes :
    (entries : List (List ℕ)) → any_supported entries ≡ true → AnyServes entries
unfolding any_supported
any_supported→AnyServes [] e = cc
any_supported→AnyServes (entry ∷ entries) e =
    elim (Bool-cases (supports_entry (parse_version entry))) [
      | inl served ↦ here (supports_entry→Serves (parse_version entry) served)
      | inr other ↦ there (any_supported→AnyServes entries (rw other at e))
    ]

AnyServes→any_supported :
    (entries : List (List ℕ)) → AnyServes entries → any_supported entries ≡ true
unfolding any_supported
AnyServes→any_supported [] s = elim s [ ]
AnyServes→any_supported (entry ∷ entries) (here s) = rw (Serves→supports_entry entry s) refl
AnyServes→any_supported (entry ∷ entries) (there s) =
    ground (arith, AnyServes→any_supported entries s)

-- `versionSupported` holds just when an entry of the list is a version not below the agent's
-- own: of a larger major, or of the same major and a minor that is not negative.
pub version_supported-AnyServes :
    (list : List ℕ) → (version_supported list ≡ true) ↔ AnyServes (split_list list)
unfolding version_supported
version_supported-AnyServes list =
    (any_supported→AnyServes (split_list list), AnyServes→any_supported (split_list list))
