-- ===== src/Varint.antt =====
-- varint/varint.go: the variable-length integers of SPOP. A byte slice is a list of bytes, and
-- a uint64 is a number below 2 ^ 64.
pub mod Format
pub mod Write
pub mod Read
pub mod RoundTrip
mod Runs
use spop.Base.{
  ℕ, zero, suc, ◌+◌, ◌-◌, ◌*◌, ◌/◌, ◌%◌, ◌^◌, bit_or, List, [], ◌∷◌, ◌++◌, Option, none, some,
  Result, ok, fault, out_of_range, ◌>>=◌, ltb, leb, if◌then◌else◌, length, drop, replicate,
  slice_to,
}

abbrev pub max_len : ℕ
max_len = 10

-- The loop `for n >= 128` and the write behind it, from `scratch[p]` on. `room` is the number of
-- places that scratch still has at p: a write with no room is an index out of range.
unfoldable pub put_loop : ℕ → ℕ → Result (List ℕ)
put_loop zero n = fault out_of_range
put_loop (suc room) n =
    let more = put_loop room ((n - 128) / 128) >>= λ bs. ok (bit_or (n % 256) 128 ∷ bs) in
    if leb 128 n then more else ok ((n % 256) ∷ [])

-- What stands in `scratch[:p]` when the encoding is complete.
unfoldable pub fill_scratch : ℕ → Result (List ℕ)
unfolding put_loop
fill_scratch n =
    if ltb n 240
    then ok ((n % 256) ∷ [])
    else (put_loop (max_len - 1) ((n - 240) / 16) >>= λ bs. ok (bit_or (n % 256) 0xF0 ∷ bs))

-- The buffer after the call, and the count returned; `none` is -1.
unfoldable pub put_uvarint : List ℕ → ℕ → Result (List ℕ × Option ℕ)
unfolding fill_scratch
put_uvarint buf n = do
  scratch ← fill_scratch n
  if ltb (length buf) (length scratch)
      then ok (buf, none)
      else ok (scratch ++ drop (length scratch) buf, some (length scratch))

-- The loop of `Uvarint` over the bytes from `buf[p]` on.
unfoldable pub uvarint_loop : List ℕ → ℕ → ℕ → ℕ → Option (ℕ × ℕ)
uvarint_loop [] n r p = none
uvarint_loop (b ∷ rest) n r p =
    let n' = (n + b * 2 ^ r % 2 ^ 64) % 2 ^ 64 in
    let more = uvarint_loop rest n' (r + 7) (p + 1) in if ltb b 128 then some (n', p + 1) else more

-- `none` is the answer (0, -1).
unfoldable pub uvarint : List ℕ → Option (ℕ × ℕ)
unfolding uvarint_loop
uvarint [] = none
uvarint (b ∷ rest) = if ltb b 240 then some (b, 1) else uvarint_loop rest b 4 1

-- The callers' idiom `b := make([]byte, MaxLen); i := PutUvarint(b, n)` and then `b[:i]`.
unfoldable pub uvarint_bytes : ℕ → Result (List ℕ)
unfolding put_uvarint slice_to
uvarint_bytes n = do
  (b, i) ← put_uvarint (replicate max_len 0) n
  elim i [ none ↦ fault out_of_range | some i ↦ slice_to b i ]
