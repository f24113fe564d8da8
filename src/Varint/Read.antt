-- ===== src/Varint/Read.antt =====
-- What `Uvarint` answers, on the encodings and on any other input.
use spop.Base.{
  ℕ, ◌+◌, ◌*◌, ◌%◌, ◌^◌, ◌≤◌, ◌<◌, ◌≡◌, ◌≢◌, refl, ap, ◌∙◌, inl, inr, List, [], ◌∷◌, ◌++◌, Option,
  some, none, arith, ltb, ltb→lt, ltb→le, length, IsByte, All, Bool-cases, Option-cases,
}
use native.Mathlib.Numerals.{towards_suc}
use spop.Varint.{uvarint_loop, uvarint}
use spop.Varint.Format.{IsGroups, last, more, groups, IsEncoding, short, long, number}

shift_seven : (r : ℕ) → 2 ^ (r + 7) ≡ 128 * 2 ^ r
shift_seven r = simp towards_suc (omega arith)

uvarint_loop_last :
    (b n r p : ℕ) (rest : List ℕ)
    → b < 128
    → uvarint_loop (b ∷ rest) n r p ≡ some ((n + b * 2 ^ r) % 2 ^ 64, p + 1)
unfolding uvarint_loop
uvarint_loop_last b n r p rest h = ground arith

uvarint_loop_more :
    (b n r p : ℕ) (rest : List ℕ)
    → 128 ≤ b
    → uvarint_loop (b ∷ rest) n r p
      ≡ uvarint_loop rest ((n + b * 2 ^ r % 2 ^ 64) % 2 ^ 64) (r + 7) (p + 1)
unfolding uvarint_loop
uvarint_loop_more b n r p rest h = ground arith

-- One round's sum and what the later groups add.
carry_over :
    (b g n r : ℕ)
    → ((n + b * 2 ^ r % 2 ^ 64) % 2 ^ 64 + g * 2 ^ (r + 7)) % 2 ^ 64
      ≡ (n + (b + 128 * g) * 2 ^ r) % 2 ^ 64
carry_over b g n r = omega (arith, ap (λ (t : ℕ). g * t) (shift_seven r))

uvarint_loop-groups :
    {bs : List ℕ} (rest : List ℕ) (n r p : ℕ)
    → IsGroups bs
    → uvarint_loop (bs ++ rest) n r p ≡ some ((n + groups bs * 2 ^ r) % 2 ^ 64, p + length bs)
uvarint_loop-groups rest n r p (last b h) = uvarint_loop_last b n r p rest h ∙ ground arith
uvarint_loop-groups rest n r p (more b {bs} lo hi g) =
    uvarint_loop_more b n r p (bs ++ rest) lo
    ∙ uvarint_loop-groups rest _ (r + 7) (p + 1) g
    ∙ ground (arith, carry_over b (groups bs) n r)

-- `Uvarint` takes an encoding off the front of any buffer: its value mod 2 ^ 64, and its length.
pub uvarint-encoding :
    {bs : List ℕ} (rest : List ℕ)
    → IsEncoding bs
    → uvarint (bs ++ rest) ≡ some (number bs % 2 ^ 64, length bs)
unfolding uvarint
uvarint-encoding rest (short b h) = ground arith
uvarint-encoding rest (long b {bs} lo hi g) = ground (arith, uvarint_loop-groups rest b 4 1 g)

-- A front of the buffer that makes the loop stop.
uvarint_loop_stops :
    (buf : List ℕ) (n r p : ℕ)
    → All IsByte buf
    → uvarint_loop buf n r p ≢ none
    → (bs : List ℕ) × (rest : List ℕ) × (buf ≡ bs ++ rest) × IsGroups bs
uvarint_loop_stops [] n r p h e = absurd (e (unfold uvarint_loop in refl))
uvarint_loop_stops (b ∷ buf) n r p h e = elim (Bool-cases (ltb b 128)) [
  | inl small ↦ (b ∷ [], buf, refl, last b (ltb→lt b 128 small))
  | inr big ↦
      let lo : 128 ≤ b = ltb→le b 128 big in
      let (bs, rest, split, g) =
        uvarint_loop_stops buf _ _ _ h.1 (λ stuck. e (uvarint_loop_more b n r p buf lo ∙ stuck)) in
      (b ∷ bs, rest, ap (◌∷◌ b) split, more b lo h.0 g)
]

uvarint_first : (b : ℕ) (buf : List ℕ) → 240 ≤ b → uvarint (b ∷ buf) ≡ uvarint_loop buf b 4 1
unfolding uvarint
uvarint_first b buf h = ground arith

-- A buffer that `Uvarint` reads a number from starts with an encoding.
pub uvarint_front :
    (buf : List ℕ)
    → All IsByte buf
    → uvarint buf ≢ none
    → (bs : List ℕ) × (rest : List ℕ) × (buf ≡ bs ++ rest) × IsEncoding bs
uvarint_front [] h e = absurd (e (unfold uvarint in refl))
uvarint_front (b ∷ buf) h e = elim (Bool-cases (ltb b 240)) [
  | inl small ↦ (b ∷ [], buf, refl, short b (ltb→lt b 240 small))
  | inr big ↦
      let lo : 240 ≤ b = ltb→le b 240 big in
      let (bs, rest, split, g) =
        uvarint_loop_stops buf _ _ _ h.1 (λ stuck. e (uvarint_first b buf lo ∙ stuck)) in
      (b ∷ bs, rest, ap (◌∷◌ b) split, long b lo h.0 g)
]

-- An answer of `Uvarint` on a buffer, described by the format.
pub data Answers (buf : List ℕ) (answer : Option (ℕ × ℕ)) : Type 0 where
  reads :
      (bs rest : List ℕ)
      → buf ≡ bs ++ rest
      → IsEncoding bs
      → answer ≡ some (number bs % 2 ^ 64, length bs)
      → Answers buf answer
  truncated :
      answer ≡ none → ((bs rest : List ℕ) → IsEncoding bs → buf ≢ bs ++ rest) → Answers buf answer

-- `Uvarint` on any bytes. Either it answers the number of an encoding that stands at the front,
-- mod 2 ^ 64, with the encoding's length; or it answers -1, and no encoding stands at the front.
pub uvarint-Answers : (buf : List ℕ) → All IsByte buf → Answers buf (uvarint buf)
uvarint-Answers buf h = elim (Option-cases (uvarint buf)) [
  | inl e ↦ truncated e (λ bs rest enc split.
      let read : uvarint buf ≡ some (number bs % 2 ^ 64, length bs) =
        rw split (uvarint-encoding rest enc) in
      cc)
  | inr (a, e) ↦
      let (bs, rest, split, enc) = uvarint_front buf h (λ none_found. cc) in
      reads bs rest split enc (rw split (uvarint-encoding rest enc))
]
