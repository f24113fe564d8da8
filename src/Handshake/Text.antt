-- ===== src/Handshake/Text.antt =====
-- The functions of Go's `strings` and `strconv` that handshake.go calls, over bytes.
use spop.Base.{
  ℕ, zero, suc, ◌+◌, ◌-◌, ◌*◌, ◌^◌, Bool, ◌&&◌, ◌||◌, List, [], ◌∷◌, Option, none, some, ltb, leb,
  ◌==◌, if◌then◌else◌, length, drop, ℤ, pos, negsuc,
}
use mathlib.Core.List.{reverse}

-- `strings.Cut` at a one-byte separator; `none` where it is not found.
unfoldable pub cut : ℕ → List ℕ → Option (List ℕ × List ℕ)
cut sep [] = none
cut sep (b ∷ s) =
    let rest : Option (List ℕ × List ℕ) = elim (cut sep s) [
      | none ↦ none
      | some (before, after) ↦ some (b ∷ before, after)
    ] in
    if b == sep then some ([], s) else rest

-- A byte in front of the first part.
in_front : ℕ → List (List ℕ) → List (List ℕ)
in_front b [] = (b ∷ []) ∷ []
in_front b (part ∷ parts) = (b ∷ part) ∷ parts

-- `strings.Split` at a one-byte separator.
unfoldable pub split : ℕ → List ℕ → List (List ℕ)
unfolding in_front
split sep [] = [] ∷ []
split sep (b ∷ s) = if b == sep then [] ∷ split sep s else in_front b (split sep s)

unfoldable pub is_ascii_space : ℕ → Bool
is_ascii_space b = (leb 9 b && leb b 13) || b == 32

-- The last byte of the three-byte spaces U+2000 to U+200A, U+2028, U+2029 and U+202F.
is_general_space : ℕ → Bool
is_general_space d = (leb 0x80 d && leb d 0x8A) || d == 0xA8 || d == 0xA9 || d == 0xAF

is_two_byte_space : ℕ → ℕ → Bool
is_two_byte_space b c = b == 0xC2 && (c == 0x85 || c == 0xA0)

is_three_byte_space : ℕ → ℕ → ℕ → Bool
is_three_byte_space b c d =
    (b == 0xE1 && c == 0x9A && d == 0x80)
    || (b == 0xE2 && c == 0x80 && is_general_space d)
    || (b == 0xE2 && c == 0x81 && d == 0x9F)
    || (b == 0xE3 && c == 0x80 && d == 0x80)

-- How many bytes the white space at the front takes, as `unicode.IsSpace` has it; 0 for none.
space_len : List ℕ → ℕ
space_len [] = 0
space_len (b ∷ []) = if is_ascii_space b then 1 else 0
space_len (b ∷ c ∷ []) = if is_ascii_space b then 1 else if is_two_byte_space b c then 2 else 0
space_len (b ∷ c ∷ d ∷ s) =
    if is_ascii_space b
    then 1
    else if is_two_byte_space b c
    then 2
    else if is_three_byte_space b c d
    then 3
    else 0

-- The same at the end of a text, whose bytes come last first.
space_len_back : List ℕ → ℕ
space_len_back [] = 0
space_len_back (b ∷ []) = if is_ascii_space b then 1 else 0
space_len_back (b ∷ c ∷ []) = if is_ascii_space b then 1 else if is_two_byte_space c b then 2 else 0
space_len_back (b ∷ c ∷ d ∷ s) =
    if is_ascii_space b
    then 1
    else if is_two_byte_space c b
    then 2
    else if is_three_byte_space d c b
    then 3
    else 0

-- A round takes a byte at least, so `length s` rounds are enough.
trim_front : (List ℕ → ℕ) → ℕ → List ℕ → List ℕ
trim_front len zero s = s
trim_front len (suc fuel) s =
    let rest = trim_front len fuel (drop (len s) s) in if len s == 0 then s else rest

-- `strings.TrimSpace`
unfoldable pub trim_space : List ℕ → List ℕ
unfolding trim_front space_len space_len_back is_ascii_space is_two_byte_space is_three_byte_space
    is_general_space
trim_space s =
    let left = trim_front space_len (length s) s in
    reverse (trim_front space_len_back (length left) (reverse left))

-- The value of a run of decimal digits.
digits : ℕ → List ℕ → Option ℕ
digits acc [] = some acc
digits acc (b ∷ s) =
    let rest = digits (acc * 10 + (b - b'0')) s in if leb b'0' b && leb b b'9' then rest else none

-- The digits behind the sign, of which there must be one; an int64 is from -2^63 to 2^63 - 1.
magnitude : List ℕ → Option ℕ
magnitude [] = none
magnitude (b ∷ s) = digits 0 (b ∷ s)

positive : Option ℕ → Option ℤ
positive none = none
positive (some n) = if ltb n (2 ^ 63) then some (pos n) else none

negative : Option ℕ → Option ℤ
negative none = none
negative (some zero) = some (pos zero)
negative (some (suc n)) = if ltb n (2 ^ 63) then some (negsuc n) else none

-- `strconv.Atoi`; `none` is an error.
unfoldable pub atoi : List ℕ → Option ℤ
unfolding digits magnitude positive negative
atoi [] = none
atoi (b ∷ s) =
    if b == b'-'
    then negative (magnitude s)
    else if b == b'+'
    then positive (magnitude s)
    else positive (magnitude (b ∷ s))
