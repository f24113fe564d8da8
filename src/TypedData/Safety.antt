-- ===== src/TypedData/Safety.antt =====
-- `Decode` on any bytes.
use spop.Base.{
  ℕ, ◌-◌, ◌/◌, ◌^◌, ◌≤◌, ◌<◌, ◌≡◌, bit_and, List, [], ◌∷◌, some, Safely, returns, refuses,
  Safely-if, Safely-bind, slice_to-Safely, slice_from-Safely, ltb, ltb→le, ◌==◌, length,
  length-take, length-drop, length-append, All, IsByte, All-take, All-drop, IsU64, to_int32_fits,
  to_int64_fits, Option-cases, inl, inr, arith,
}
use spop.Varint.{uvarint}
use spop.Varint.Format.{IsEncoding-pos}
use spop.Varint.Read.{uvarint-Answers, Answers, reads, truncated}
use spop.TypedData.{
  Value, uint64, string, ip, bytes, decode_varint, decode_fixed, decode_sized, decode_body, decode,
  IsValue, IsString,
}

-- What a successful read promises of its value and of its count.
abbrev pub Within : List ℕ → Value × ℕ → Type 0
Within buf (v, n) = IsValue v × (1 ≤ n) × (n ≤ length buf)

-- A varint that was read lies within the buffer.
pub uvarint_within :
    (buf : List ℕ) (m i : ℕ)
    → All IsByte buf
    → uvarint buf ≡ some (m, i)
    → IsU64 m × (0 < i) × (i ≤ length buf)
uvarint_within buf m i h e = go (uvarint-Answers buf h)
  where
    go : Answers buf (uvarint buf) → IsU64 m × (0 < i) × (i ≤ length buf)
    go (reads bs rest split enc a) = ground (arith, IsEncoding-pos enc, length-append bs rest)
    go (truncated a none_at_front) = cc

decode_varint-Within :
    (convert : ℕ → Value) (b : ℕ) (buf : List ℕ)
    → ((i : ℕ) → IsU64 i → IsValue (convert i))
    → All IsByte buf
    → Safely (Within (b ∷ buf)) (decode_varint convert buf)
unfolding decode_varint
decode_varint-Within convert b buf fits h = elim (Option-cases (uvarint buf)) [
  | inl e ↦ rw (e, decode_varint) refuses
  | inr ((i, l), e) ↦
      let (small, lo, hi) = uvarint_within buf i l h e in
      rw (e, decode_varint) (returns (fits i small, omega arith, omega arith))
]

decode_fixed-Within :
    (b size : ℕ) (buf : List ℕ)
    → size < 2 ^ 63
    → All IsByte buf
    → Safely (Within (b ∷ buf)) (decode_fixed ip size buf)
unfolding decode_fixed
decode_fixed-Within b size buf small h =
    Safely-if (ltb (length buf) size) (λ _. refuses)
      λ e. Safely-bind (slice_to-Safely buf size (ltb→le _ _ e)) λ v p. rw p (
        returns (
          (All-take IsByte size buf h, omega (arith, length-take size buf)),
          omega arith,
          omega (arith, ltb→le _ _ e),
        ))

decode_sized-Within :
    (convert : List ℕ → Value) (b : ℕ) (buf : List ℕ)
    → ((s : List ℕ) → IsString s → IsValue (convert s))
    → All IsByte buf
    → length buf < 2 ^ 63
    → Safely (Within (b ∷ buf)) (decode_sized convert buf)
unfolding decode_sized
decode_sized-Within convert b buf fits h short = elim (Option-cases (uvarint buf)) [
  | inl e ↦ rw (e, decode_sized) refuses
  | inr ((len, i), e) ↦
      let (small, lo, hi) = uvarint_within buf len i h e in
      rw (e, decode_sized)
        (Safely-bind (slice_from-Safely buf i hi) λ rest p.
          Safely-if (ltb (length rest) len) (λ _. refuses)
            λ q. Safely-bind (slice_to-Safely rest len (ltb→le _ _ q)) λ v r.
              let rest_bytes : All IsByte rest = rw p (All-drop IsByte i buf h) in
              let room : length rest ≡ length buf - i = rw p (length-drop i buf) in
              returns (
                fits v (
                  rw r (All-take IsByte len rest rest_bytes),
                  rw r (omega (arith, length-take len rest)),
                ),
                omega arith,
                omega (arith, ltb→le _ _ q),
              ))
]

decode_body-Within :
    (t f b : ℕ) (buf : List ℕ)
    → All IsByte buf
    → length buf < 2 ^ 63
    → Safely (Within (b ∷ buf)) (decode_body t f buf)
unfolding decode_body
decode_body-Within t f b buf h short =
    Safely-if (t == 0) (λ _. returns (tt, omega arith, omega arith))
      λ _.
        Safely-if (t == 1) (λ _. returns (tt, omega arith, omega arith))
          λ _.
            Safely-if (t == 2) (λ _. decode_varint-Within _ b buf (λ i u. to_int32_fits i) h)
              λ _.
                Safely-if (t == 3) (λ _. decode_varint-Within _ b buf (λ i u. omega arith) h)
                  λ _.
                    Safely-if (t == 4)
                      (λ _. decode_varint-Within _ b buf (λ i u. to_int64_fits i u) h)
                      λ _.
                        Safely-if (t == 5) (λ _. decode_varint-Within uint64 b buf (λ i u. u) h)
                          λ _.
                            Safely-if (t == 6) (λ _. decode_fixed-Within b 4 buf (omega arith) h)
                              λ _.
                                Safely-if (t == 7)
                                  (λ _. decode_fixed-Within b 16 buf (omega arith) h)
                                  λ _.
                                    Safely-if (t == 8)
                                      (λ _. decode_sized-Within string b buf (λ s k. k) h short)
                                      λ _.
                                        Safely-if (t == 9)
                                          (λ _. decode_sized-Within bytes b buf (λ s k. k) h short)
                                          λ _. refuses

-- On any bytes `Decode` ends without a fault: no index or slice bound passes the buffer. A
-- value that it returns is one of its Go type, and its count is at least 1 and at most the
-- buffer's length.
pub decode-Within :
    (buf : List ℕ) → All IsByte buf → length buf < 2 ^ 63 → Safely (Within buf) (decode buf)
unfolding decode
decode-Within [] h short = refuses
decode-Within (b ∷ buf) h short =
    decode_body-Within (bit_and b 0x0F) (b / 16) b buf h.1 (omega arith)
