-- ===== src/Varint/Runs.antt =====
-- Runs of varint.go at concrete inputs, and its theorems there.
use spop.Base.{
  ℕ, ◌-◌, ◌^◌, ◌≤◌, ◌≡◌, refl, List, [], ◌∷◌, ◌++◌, some, none, ok, arith, replicate, length, ltb,
  if◌then◌else◌, drop,
}
use spop.Varint.{put_uvarint, uvarint, uvarint_bytes, max_len}
use spop.Varint.Format.{IsEncoding, long, last, number}
use spop.Varint.Write.{put_uvarint_lem}
use spop.Varint.Read.{Answers, uvarint-Answers}
use spop.Varint.RoundTrip.{uvarint-put_uvarint, uvarint_bytes-uvarint}

abbrev ten_bytes : List ℕ
ten_bytes = replicate 10 7

put_239 : uvarint_bytes 239 ≡ ok (239 ∷ [])
unfolding uvarint_bytes
put_239 = refl

put_1234 : uvarint_bytes 1234 ≡ ok (242 ∷ 62 ∷ [])
unfolding uvarint_bytes
put_1234 = refl

put_max :
    uvarint_bytes (2 ^ 64 - 1) ≡ ok (255 ∷ 240 ∷ 254 ∷ 254 ∷ 254 ∷ 254 ∷ 254 ∷ 254 ∷ 254 ∷ 14 ∷ [])
unfolding uvarint_bytes
put_max = refl

put_too_small : put_uvarint (9 ∷ []) 240 ≡ ok (9 ∷ [], none)
unfolding put_uvarint
put_too_small = refl

read_1234 : uvarint (242 ∷ 62 ∷ 5 ∷ []) ≡ some (1234, 2)
unfolding uvarint
read_1234 = refl

read_cut : uvarint (242 ∷ 190 ∷ []) ≡ none
unfolding uvarint
read_cut = refl

put_uvarint_lem_example :
    (bs : List ℕ) × IsEncoding bs
    × (number bs ≡ 1234)
    × (length bs ≤ max_len)
    × (put_uvarint (1 ∷ []) 1234 ≡ (
        if ltb 1 (length bs)
        then ok (1 ∷ [], none)
        else ok (bs ++ drop (length bs) (1 ∷ []), some (length bs))))
put_uvarint_lem_example = put_uvarint_lem (1 ∷ []) 1234 (omega arith)

uvarint-Answers_example : Answers (242 ∷ 190 ∷ []) (uvarint (242 ∷ 190 ∷ []))
uvarint-Answers_example = uvarint-Answers (242 ∷ 190 ∷ []) (omega arith)

uvarint-put_uvarint_example :
    (buf' : List ℕ) × (p : ℕ) × (put_uvarint ten_bytes 2287 ≡ ok (buf', some p))
    × (length buf' ≡ 10)
    × (uvarint buf' ≡ some (2287, p))
uvarint-put_uvarint_example = uvarint-put_uvarint ten_bytes 2287 (omega arith) (omega arith)

uvarint_bytes-uvarint_example :
    (n : ℕ) × (uvarint (242 ∷ 62 ∷ 5 ∷ []) ≡ some (n, 2)) × (uvarint_bytes n ≡ ok (242 ∷ 62 ∷ []))
uvarint_bytes-uvarint_example =
    uvarint_bytes-uvarint (242 ∷ 62 ∷ []) (5 ∷ [])
      (long 242 (omega arith) (omega arith) (last 62 (omega arith))) (omega arith)
