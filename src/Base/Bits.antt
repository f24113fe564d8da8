-- ===== src/Base/Bits.antt =====
-- The masks that the program applies to one byte, as arithmetic. Each is a table checked by
-- evaluation.
use Prim.Native.Nat.{ℕ, zero, suc, ◌+◌, ◌%◌, ◌<◌, bit_and, bit_or}
use mathlib.Core.Path.{◌≡◌, refl}
use mathlib.Core.Bool.{Bool, true, ◌&&◌}
use native.Mathlib.Omega.{arith}
use spop.Base.Tests.{◌==◌}

module _ (f g : ℕ → ℕ) where
  same_below : ℕ → Bool
  same_below zero = true
  same_below (suc n) = f n == g n && same_below n

  same_below_sound : (n : ℕ) → same_below n ≡ true → (i : ℕ) → i < n → f i ≡ g i
  unfolding same_below
  same_below_sound zero e i h = absurd (omega arith)
  same_below_sound (suc n) e i h = ground (arith, same_below_sound n (ground arith) i)

pub mask_first : (b : ℕ) → b < 256 → bit_or b 0xF0 ≡ b % 16 + 240
unfolding same_below
mask_first = same_below_sound _ _ 256 refl

pub mask_more : (b : ℕ) → b < 256 → bit_or b 128 ≡ b % 128 + 128
unfolding same_below
mask_more = same_below_sound _ _ 256 refl

pub mask_low_nibble : (b : ℕ) → b < 256 → bit_and b 0x0F ≡ b % 16
unfolding same_below
mask_low_nibble = same_below_sound _ _ 256 refl

pub mask_low_bit : (b : ℕ) → b < 256 → bit_and b 1 ≡ b % 2
unfolding same_below
mask_low_bit = same_below_sound _ _ 256 refl
