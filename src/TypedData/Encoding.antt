-- ===== src/TypedData/Encoding.antt =====
-- `Encode` of any value of Go's types: it ends with bytes or with an error.
use spop.Base.{
  ℕ, ◌≤◌, ◌≡◌, ◌⊎◌, inl, inr, refl, subst, sym, List, length, length-append, Safely, returns,
  refuses, IsU64, arith, ◌++◌,
}
use spop.Varint.{uvarint_bytes}
use spop.Varint.RoundTrip.{encoding, uvarint_bytes-encoding}
use spop.TypedData.{Value, ip, other, IsValue, encode}
use spop.TypedData.Wire.{Sendable, wire, encode-wire, encode_refuses}

pub uvarint_bytes-Safely : (n : ℕ) → IsU64 n → Safely (λ b. b ≡ encoding n) (uvarint_bytes n)
uvarint_bytes-Safely n h =
    subst (Safely (λ b. b ≡ encoding n)) (sym (uvarint_bytes-encoding n h)) (returns refl)

Sendable-cases : (v : Value) → Sendable v ⊎ (¬ Sendable v)
Sendable-cases (ip v) = ground arith
Sendable-cases other = inr (λ s. s)
Sendable-cases _ = inl tt

-- The count that `Encode` returns is one that its buffer can be cut at.
pub encode-Safely :
    (v : Value) (buf : List ℕ) → IsValue v → Safely (λ (b, n). n ≤ length b) (encode v buf)
encode-Safely v buf h = elim (Sendable-cases v) [
  | inl s ↦
      subst (Safely (λ (b, n). n ≤ length b)) (sym (encode-wire v buf h s))
        (returns {a = (buf ++ wire v, length (wire v))} (omega (arith, length-append buf (wire v))))
  | inr never ↦ elim (encode_refuses v buf never) [
    | inl e ↦ subst (Safely (λ (b, n). n ≤ length b)) (sym e) refuses
    | inr e ↦ subst (Safely (λ (b, n). n ≤ length b)) (sym e) refuses
  ]
]
