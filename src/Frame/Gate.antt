-- ===== src/Frame/Gate.antt =====
-- What `ReadLimit` lets through: the header's checks, and the bytes that a frame takes.
use spop.Base.{
  ℕ, ◌+◌, ◌-◌, ◌≤◌, ◌≡◌, refl, ap, ◌∙◌, Bool, true, false, not, List, Option, refuse_if, Result,
  Error, Safely, returns, refuses, Safely-if, Safely-bind, Safely-refuse_if, ltb, leb, ltb→le,
  leb→le, ◌==◌, length, take, drop, drop-drop, length-take, length-drop, All, All-take, All-drop,
  arith, min, IsByte, invalid_frame_length, frame_too_big, unexpected_frame_type,
  unexpected_frame_type_from_peer, unexpected_frame_length, read_error,
}
use spop.Frame.{Frame, max_frame_size}
use spop.Frame.Read.{
  Source, read_full, wrap_header, map_err, uint32_at, is_known_type, accepts_type, check_header,
  type_of_header, read_limit,
}
use spop.Frame.Safety.{HasContents, IsFrame, read_body-ReadsBody}

not-false : (b : Bool) → not b ≡ false → b ≡ true
not-false true e = refl
not-false false e = cc

abbrev pub Passes : ℕ → Option (List ℕ) → ℕ → ℕ → Type 0
Passes limit accept len type =
    (is_known_type type ≡ true) × (accepts_type accept type ≡ true) × (5 ≤ len) × (len ≤ limit)

check_header-Passes :
    (limit : ℕ) (accept : Option (List ℕ)) (len type : ℕ)
    → Safely (λ _. Passes limit accept len type) (check_header limit accept len type)
unfolding check_header
check_header-Passes limit accept len type =
    Safely-refuse_if (not (is_known_type type)) unexpected_frame_type λ known.
      Safely-refuse_if (not (accepts_type accept type)) unexpected_frame_type_from_peer λ allowed.
        Safely-refuse_if (ltb len 5) invalid_frame_length λ lower.
          last (ltb limit len)
            λ upper. (not-false _ known, not-false _ allowed, ltb→le _ _ lower, ltb→le _ _ upper)
  where
    last :
        (b : Bool)
        → (b ≡ false → Passes limit accept len type)
        → Safely (λ _. Passes limit accept len type) (refuse_if b (frame_too_big len limit))
    last true k = refuses
    last false k = returns (k refl)

abbrev pub Takes : ℕ → Source → List ℕ × Source → Type 0
Takes n src (bytes, src') =
    (n ≤ length src.input)
    × (bytes ≡ take n src.input)
    × (src'.input ≡ drop n src.input)
    × (src'.ending ≡ src.ending)

read_full-Takes : (n : ℕ) (src : Source) → Safely (Takes n src) (read_full n src)
unfolding read_full
read_full-Takes n src =
    Safely-if (leb n (length src.input))
      (λ e.
        returns {a = (take n src.input, record src { input = drop n src.input })}
          (leb→le _ _ e, refl, refl, refl))
      (λ _. refuses)

Safely-map_err {ℓ κ} :
    {A : Type ℓ} {P : A → Type κ} {r : Result A} (f : Error → Error)
    → Safely P r
    → Safely P (map_err f r)
unfolding map_err
Safely-map_err f (returns h) = returns h
Safely-map_err f refuses = refuses

-- The frame passed the header's checks, took 4 + len bytes of the source and no more, and is
-- well-formed.
pub record ReadsFrame (src : Source) (limit : ℕ) (accept : Option (List ℕ)) (g : Frame)
    (src' : Source) : Type 0 where
  pub passes : Passes (min limit max_frame_size) accept g.len g.type
  pub enough : 4 + g.len ≤ length src.input
  pub rest : src'.input ≡ drop (4 + g.len) src.input
  pub same_ending : src'.ending ≡ src.ending
  pub is_frame : IsFrame g

-- `ReadLimit` on any bytes ends without a fault. A frame that it returns has a type of the
-- package that the caller accepts, a length from 5 to the smaller of the caller's limit and
-- MaxFrameSize, words that fit their fields and well-formed contents; exactly the 4 + FRAME-LENGTH
-- bytes of the frame have been taken off the source.
pub read_limit-ReadsFrame :
    (f : Frame) (src : Source) (limit : ℕ) (accept : Option (List ℕ))
    → HasContents f
    → All IsByte src.input
    → Safely (λ (g, src'). ReadsFrame src limit accept g src') (read_limit f src limit accept)
unfolding read_limit
read_limit-ReadsFrame f src limit accept c h =
    Safely-bind (Safely-map_err wrap_header (read_full-Takes 5 src))
      λ (header, src₁) (room, p, rest₁, end₁).
        Safely-bind
          (check_header-Passes (min limit max_frame_size) accept (uint32_at header)
            (type_of_header header))
          λ _ ok_header.
            Safely-bind (Safely-map_err read_error (read_full-Takes (uint32_at header - 1) src₁))
              λ (buf, src₂) (room₂, q, rest₂, end₂).
                Safely-refuse_if (not (length buf == uint32_at header - 1)) unexpected_frame_length
                  λ _.
                    let bytes₁ : All IsByte src₁.input = rw rest₁ (All-drop IsByte 5 src.input h) in
                    let size : length src₁.input ≡ length src.input - 5 =
                      rw rest₁ (length-drop 5 src.input) in
                    let size₂ : length buf ≡ min (uint32_at header - 1) (length src₁.input) =
                      rw q (length-take (uint32_at header - 1) src₁.input) in
                    let g₀ : Frame = record f {
                      len = uint32_at header;
                      type = type_of_header header;
                    } in
                    Safely-bind
                      (read_body-ReadsBody g₀ buf (assumption)
                        (rw q (All-take IsByte _ src₁.input bytes₁), omega (arith, ok_header.3))
                        (omega (arith, ok_header.2)))
                      λ g (len, type, fine).
                        let moved : 5 + (uint32_at header - 1) ≡ 4 + uint32_at header =
                          omega (arith, ok_header.2) in
                        returns {a = (g, src₂)} (record {
                          passes = rw (len, type) ok_header;
                          enough = rw len (omega (arith, ok_header.2));
                          rest =
                              rw (len, ← moved)
                                (rest₂
                                  ∙ ap (drop (uint32_at header - 1)) rest₁
                                  ∙ drop-drop 5 (uint32_at header - 1) src.input);
                          same_ending = end₂ ∙ end₁;
                          is_frame = fine;
                        })
