-- ===== src/Varint/RoundTrip.antt =====
-- `Uvarint` after `PutUvarint` and back, truncation, and the widths that the comment of varint.go
-- lists.
use spop.Base.{
  false, ℕ, zero, suc, ◌+◌, ◌*◌, ◌≤◌, ◌<◌, ◌≡◌, refl, sym, ap, ◌∙◌, inl, inr, List, [], ◌++◌, some,
  none, arith, ltb, le→ltb, if◌then◌else◌, length, drop, IsU64, Bool-cases, length-append, Result,
  ok, replicate, slice_to-append, length-drop,
}
use spop.Varint.{put_uvarint, uvarint, uvarint_bytes, max_len}
use spop.Varint.Format.{
  IsEncoding, short, long, number, IsEncoding-unique, IsEncoding-pos, IsGroups-range, least_groups,
  IsGroups-pos,
}
use spop.Varint.Write.{put_uvarint_lem}
use spop.Varint.Read.{uvarint-encoding}

or_nothing : Result (List ℕ) → List ℕ
or_nothing (ok bs) = bs
or_nothing _ = []

-- The bytes that stand for a uint64.
pub encoding : ℕ → List ℕ
unfolding or_nothing
encoding n = or_nothing (uvarint_bytes n)

pub record Encodes (bs : List ℕ) (n : ℕ) : Type 0 where
  pub is_encoding : IsEncoding bs
  pub stands_for : number bs ≡ n
  pub width : length bs ≤ max_len

uvarint_bytes_some : (n : ℕ) → IsU64 n → (bs : List ℕ) × (uvarint_bytes n ≡ ok bs) × Encodes bs n
unfolding uvarint_bytes
uvarint_bytes_some n h =
    let (bs, enc, total, len, written) = put_uvarint_lem (replicate max_len 0) n h in
    let fits : ltb max_len (length bs) ≡ false = le→ltb max_len (length bs) len in
    (
      bs,
      rw (written, fits) (slice_to-append bs _),
      record { is_encoding = enc; stands_for = total; width = len },
    )

pub uvarint_bytes-encoding : (n : ℕ) → IsU64 n → uvarint_bytes n ≡ ok (encoding n)
unfolding encoding
uvarint_bytes-encoding n h = let (bs, e, _) = uvarint_bytes_some n h in rw (e, or_nothing)

pub encoding-Encodes : (n : ℕ) → IsU64 n → Encodes (encoding n) n
unfolding encoding
encoding-Encodes n h = let (bs, e, enc) = uvarint_bytes_some n h in rw (e, or_nothing) enc

-- Reading back what the callers wrote, whatever follows it.
pub uvarint-uvarint_bytes :
    (n : ℕ) (rest : List ℕ) → IsU64 n → uvarint (encoding n ++ rest) ≡ some (n, length (encoding n))
uvarint-uvarint_bytes n rest h =
    let enc = encoding-Encodes n h in
    uvarint-encoding rest enc.is_encoding ∙ ground (arith, enc.stands_for)

-- Round trip: for a uint64 n and a buffer of MaxLen bytes or more, `PutUvarint` answers some
-- count p of bytes, the buffer keeps its length, and `Uvarint` on the buffer answers n and p.
pub uvarint-put_uvarint :
    (buf : List ℕ) (n : ℕ)
    → IsU64 n
    → max_len ≤ length buf
    → (buf' : List ℕ) × (p : ℕ) × (put_uvarint buf n ≡ ok (buf', some p))
      × (length buf' ≡ length buf)
      × (uvarint buf' ≡ some (n, p))
uvarint-put_uvarint buf n h room =
    let (bs, enc, total, len, written) = put_uvarint_lem buf n h in
    let fits : ltb (length buf) (length bs) ≡ false =
      le→ltb (length buf) (length bs) (omega arith) in
    (
      bs ++ drop (length bs) buf,
      length bs,
      rw (written, fits),
      omega (arith, length-append bs (drop (length bs) buf), length-drop (length bs) buf),
      uvarint-encoding (drop (length bs) buf) enc ∙ ground arith,
    )

-- The other way round: where `Uvarint` reads a number off a buffer of bytes in p of them, and
-- the bytes read stand for less than 2 ^ 64, writing that number again gives the bytes read.
pub uvarint_bytes-uvarint :
    (bs rest : List ℕ)
    → IsEncoding bs
    → IsU64 (number bs)
    → (n : ℕ) × (uvarint (bs ++ rest) ≡ some (n, length bs)) × (uvarint_bytes n ≡ ok bs)
uvarint_bytes-uvarint bs rest enc h =
    let again = encoding-Encodes (number bs) h in
    let same : encoding (number bs) ≡ bs =
      IsEncoding-unique again.is_encoding enc again.stands_for in
    (
      number bs,
      uvarint-encoding rest enc ∙ ground arith,
      uvarint_bytes-encoding (number bs) h ∙ ap ok same,
    )

-- The widths of the comment, its "..." continued to a full 64-bit number.
pub table_width : ℕ → ℕ
table_width n =
    if ltb n 240
    then 1
    else if ltb n 2288
    then 2
    else if ltb n 264432
    then 3
    else if ltb n 33818864
    then 4
    else if ltb n 4328786160
    then 5
    else if ltb n 554084600048
    then 6
    else if ltb n 70922828777712
    then 7
    else if ltb n 9078122083518704
    then 8
    else if ltb n 1161999626690365680
    then 9
    else 10

least : ℕ → ℕ
least zero = 0
least (suc k) = 240 + 16 * least_groups k

encoding_range :
    {bs : List ℕ} (k : ℕ)
    → IsEncoding bs
    → length bs ≡ suc k
    → (least k ≤ number bs) × (number bs < least (suc k))
unfolding least
encoding_range zero (short b h) e = omega arith
encoding_range (suc k) (short b h) e = absurd (omega arith)
encoding_range zero (long b lo hi g) e = absurd (omega (arith, IsGroups-pos g))
encoding_range (suc k) (long b lo hi g) e = omega (arith, IsGroups-range k g (omega arith))

table_width_lem :
    (k n : ℕ) → k < 10 → least k ≤ n → n < least (suc k) → IsU64 n → table_width n ≡ suc k
unfolding least table_width
table_width_lem zero n h lo hi u = ground arith
table_width_lem (suc zero) n h lo hi u = ground arith
table_width_lem (suc (suc zero)) n h lo hi u = ground arith
table_width_lem (suc (suc (suc zero))) n h lo hi u = ground arith
table_width_lem (suc (suc (suc (suc zero)))) n h lo hi u = ground arith
table_width_lem (suc (suc (suc (suc (suc zero))))) n h lo hi u = ground arith
table_width_lem (suc (suc (suc (suc (suc (suc zero)))))) n h lo hi u = ground arith
table_width_lem (suc (suc (suc (suc (suc (suc (suc zero))))))) n h lo hi u = ground arith
table_width_lem (suc (suc (suc (suc (suc (suc (suc (suc zero)))))))) n h lo hi u = ground arith
table_width_lem (suc (suc (suc (suc (suc (suc (suc (suc (suc zero))))))))) n h lo hi u =
    ground arith
table_width_lem (suc (suc (suc (suc (suc (suc (suc (suc (suc (suc k)))))))))) n h lo hi u =
    absurd (omega arith)

pred_of_pos : (n : ℕ) → 0 < n → (k : ℕ) × (n ≡ suc k)
pred_of_pos zero h = absurd (omega arith)
pred_of_pos (suc k) h = (k, refl)

encoding_width :
    (bs : List ℕ)
    → IsEncoding bs
    → length bs ≤ max_len
    → IsU64 (number bs)
    → length bs ≡ table_width (number bs)
encoding_width bs enc len u =
    let (k, e) = pred_of_pos (length bs) (IsEncoding-pos enc) in
    let (lo, hi) = encoding_range k enc e in
    e ∙ sym (table_width_lem k (number bs) (omega arith) lo hi u)

-- For every uint64, `PutUvarint` answers the width of the comment's table if the buffer has that
-- many bytes, and -1 otherwise.
pub put_uvarint_width :
    (buf : List ℕ) (n : ℕ)
    → IsU64 n
    → (buf' : List ℕ) × (put_uvarint buf n
        ≡ ok (buf', (if ltb (length buf) (table_width n) then none else some (table_width n))))
put_uvarint_width buf n h =
    let (bs, enc, total, len, written) = put_uvarint_lem buf n h in
    let wide : length bs ≡ table_width n =
      encoding_width bs enc len (rw total h) ∙ ap table_width total in
    elim (Bool-cases (ltb (length buf) (length bs))) [
      | inl e ↦ (buf, rw (written, ← wide, e))
      | inr e ↦ (bs ++ drop (length bs) buf, rw (written, ← wide, e))
    ]
