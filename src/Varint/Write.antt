-- ===== src/Varint/Write.antt =====
-- What `PutUvarint` writes.
use spop.Base.{
  ℕ, zero, suc, ◌+◌, ◌-◌, ◌/◌, ◌%◌, ◌^◌, ◌≤◌, ◌<◌, ◌≡◌, inl, inr, List, [], ◌∷◌, ◌++◌, some, none,
  ok, arith, ltb, ltb→lt, ltb→le, if◌then◌else◌, length, drop, IsU64, mask_first, mask_more,
  Bool-cases,
}
use spop.Varint.{put_loop, fill_scratch, put_uvarint, max_len}
use spop.Varint.Format.{IsGroups, last, more, groups, IsEncoding, short, long, number}

put_loop_last : (room n : ℕ) → n < 128 → put_loop (suc room) n ≡ ok (n ∷ [])
unfolding put_loop
put_loop_last room n h = ground (arith, h)

put_loop_more :
    (room n : ℕ) {bs : List ℕ}
    → 128 ≤ n
    → put_loop room ((n - 128) / 128) ≡ ok bs
    → put_loop (suc room) n ≡ ok ((n % 128 + 128) ∷ bs)
unfolding put_loop
put_loop_more room n h e = ground (arith, mask_more (n % 256))

put_loop_lem :
    (room n : ℕ)
    → n < 128 ^ suc room
    → (bs : List ℕ) × (put_loop (suc room) n ≡ ok bs)
      × IsGroups bs
      × (groups bs ≡ n)
      × (length bs ≤ suc room)
put_loop_lem zero n h =
    (n ∷ [], put_loop_last zero n (omega arith), last n (omega arith), omega arith, omega arith)
put_loop_lem (suc room) n h = elim (Bool-cases (ltb n 128)) [
  | inl e ↦ (
    n ∷ [],
    put_loop_last _ n (ltb→lt n 128 e),
    last n (ltb→lt n 128 e),
    omega arith,
    omega arith,
  )
  | inr e ↦
      let big : 128 ≤ n = ltb→le n 128 e in
      let (bs, written, g, total, len) = put_loop_lem room ((n - 128) / 128) (omega arith) in
      (
        (n % 128 + 128) ∷ bs,
        put_loop_more (suc room) n big written,
        more (n % 128 + 128) (omega arith) (omega arith) g,
        omega arith,
        omega arith,
      )
]

fill_scratch_short : (n : ℕ) → n < 240 → fill_scratch n ≡ ok (n ∷ [])
unfolding fill_scratch
fill_scratch_short n h = ground arith

fill_scratch_long :
    (n : ℕ) {bs : List ℕ}
    → 240 ≤ n
    → put_loop 9 ((n - 240) / 16) ≡ ok bs
    → fill_scratch n ≡ ok ((n % 16 + 240) ∷ bs)
unfolding fill_scratch
fill_scratch_long n h e = ground (arith, mask_first (n % 256))

-- The scratch array is never written out of range, and holds the encoding of n in the end.
pub fill_scratch_lem :
    (n : ℕ)
    → IsU64 n
    → (bs : List ℕ) × (fill_scratch n ≡ ok bs)
      × IsEncoding bs
      × (number bs ≡ n)
      × (length bs ≤ max_len)
fill_scratch_lem n h = elim (Bool-cases (ltb n 240)) [
  | inl e ↦
      let small : n < 240 = ltb→lt n 240 e in
      (n ∷ [], fill_scratch_short n small, short n small, omega arith, omega arith)
  | inr e ↦
      let big : 240 ≤ n = ltb→le n 240 e in
      let (bs, written, g, total, len) = put_loop_lem 8 ((n - 240) / 16) (omega arith) in
      (
        (n % 16 + 240) ∷ bs,
        fill_scratch_long n big written,
        long (n % 16 + 240) (omega arith) (omega arith) g,
        omega arith,
        omega arith,
      )
]

-- `PutUvarint(buf, n)` of any uint64: at most ten bytes that encode n are copied over the front
-- of a buffer that has room for them; a shorter buffer is left as it was, with the answer -1.
pub put_uvarint_lem :
    (buf : List ℕ) (n : ℕ)
    → IsU64 n
    → (bs : List ℕ) × IsEncoding bs
      × (number bs ≡ n)
      × (length bs ≤ max_len)
      × (put_uvarint buf n ≡ (
          if ltb (length buf) (length bs)
          then ok (buf, none)
          else ok (bs ++ drop (length bs) buf, some (length bs))))
unfolding put_uvarint
put_uvarint_lem buf n h =
    let (bs, written, enc, total, len) = fill_scratch_lem n h in (bs, enc, total, len, rw written)
