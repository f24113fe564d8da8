-- ===== src/Base/Ints.antt =====
-- Go's signed integers, and their conversions to and from uint64.
use Prim.Native.Nat.{ℕ, ◌-◌, ◌%◌, ◌^◌, ◌<◌}
use mathlib.Core.Path.{◌≡◌}
use native.Mathlib.Omega.{arith}
use spop.Base.Tests.{ltb, if◌then◌else◌}

-- `negsuc n` is -(n + 1).
pub data ℤ : Type 0 where
  pos : ℕ → ℤ
  negsuc : ℕ → ℤ

abbrev pub IsU64 : ℕ → Type 0
IsU64 n = n < 2 ^ 64

abbrev pub IsU32 : ℕ → Type 0
IsU32 n = n < 2 ^ 32

-- The values of an integer type of w + 1 bits.
abbrev pub FitsSigned : ℕ → ℤ → Type 0
FitsSigned w (pos n) = n < 2 ^ w
FitsSigned w (negsuc n) = n < 2 ^ w

-- `uint64(v)` of a signed v: two's complement, sign-extended.
unfoldable pub to_uint64 : ℤ → ℕ
to_uint64 (pos n) = n % 2 ^ 64
to_uint64 (negsuc n) = 2 ^ 64 - 1 - n % 2 ^ 64

-- `int32(i)` and `int64(i)` of a uint64 i.
unfoldable pub to_int32 : ℕ → ℤ
to_int32 i =
    if ltb (i % 2 ^ 32) (2 ^ 31) then pos (i % 2 ^ 32) else negsuc (2 ^ 32 - 1 - i % 2 ^ 32)

unfoldable pub to_int64 : ℕ → ℤ
to_int64 i = if ltb i (2 ^ 63) then pos i else negsuc (2 ^ 64 - 1 - i)

pub to_uint64-IsU64 : (z : ℤ) → IsU64 (to_uint64 z)
unfolding to_uint64
to_uint64-IsU64 (pos n) = omega arith
to_uint64-IsU64 (negsuc n) = omega arith

pub to_int32-to_uint64 : (z : ℤ) → FitsSigned 31 z → to_int32 (to_uint64 z) ≡ z
unfolding to_int32 to_uint64
to_int32-to_uint64 (pos n) h = ground arith
to_int32-to_uint64 (negsuc n) h = ground arith

pub to_int64-to_uint64 : (z : ℤ) → FitsSigned 63 z → to_int64 (to_uint64 z) ≡ z
unfolding to_int64 to_uint64
to_int64-to_uint64 (pos n) h = ground arith
to_int64-to_uint64 (negsuc n) h = ground arith

pub to_int32_fits : (i : ℕ) → FitsSigned 31 (to_int32 i)
unfolding to_int32
to_int32_fits i = ground arith

pub to_int64_fits : (i : ℕ) → IsU64 i → FitsSigned 63 (to_int64 i)
unfolding to_int64
to_int64_fits i h = ground arith
