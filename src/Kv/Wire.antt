-- ===== src/Kv/Wire.antt =====
-- The bytes of a KV-LIST, and the round trip through them.
use spop.Base.{
  ℕ, zero, suc, ◌+◌, ◌≤◌, ◌<◌, ◌≡◌, refl, sym, ap, ◌∙◌, false, List, [], ◌∷◌, ◌++◌, map, ok, ltb,
  le→ltb, length, length-append, All, append_assoc, append-nil, arith, slice_to-append,
  slice_from-append, slice_to,
}
use spop.Varint.RoundTrip.{
  encoding, uvarint_bytes-encoding, uvarint-uvarint_bytes, encoding-Encodes,
}
use spop.TypedData.Wire.{wire, Sendable, received, encode-wire, decode-wire, wire-pos}
use spop.Kv.{
  Item, Kv, bytes_loop, kv_bytes, read_item, unmarshal_loop, unmarshal, unmarshal_nb_loop,
  unmarshal_nb, IsItem,
}

abbrev pub SendableItem : Item → Type 0
SendableItem i = IsItem i × Sendable i.value

-- A key-length varint, the key, and the TYPED-DATA value.
abbrev pub item_wire : Item → List ℕ
item_wire i = encoding (length i.name) ++ (i.name ++ wire i.value)

abbrev pub kv_wire : Kv → List ℕ
kv_wire [] = []
kv_wire (i ∷ kv) = item_wire i ++ kv_wire kv

abbrev pub received_item : Item → Item
received_item i = record { name = i.name; value = received i.value }

pub length-item_wire-le :
    (i : Item) → IsItem i → length (item_wire i) ≤ 10 + length i.name + length (wire i.value)
length-item_wire-le i h = omega (
  arith,
  length-append (encoding (length i.name)) (i.name ++ wire i.value),
  length-append i.name (wire i.value),
  (encoding-Encodes (length i.name) (omega (arith, h.0.1))).width,
)

slice_to_all : (xs : List ℕ) → slice_to xs (length xs) ≡ ok xs
slice_to_all xs = rw append-nil at (slice_to-append xs [])

bytes_loop-wire :
    (kv : Kv) (buf : List ℕ) → All SendableItem kv → bytes_loop kv buf ≡ ok (buf ++ kv_wire kv)
unfolding bytes_loop
bytes_loop-wire [] buf h = ap ok (sym (append-nil buf))
bytes_loop-wire (i ∷ kv) buf ((hi, s), h) = ground (
  arith,
  uvarint_bytes-encoding (length i.name) (omega arith),
  encode-wire i.value [] hi.1 s,
  slice_to_all (wire i.value),
  bytes_loop-wire kv (buf ++ item_wire i) h,
  append_assoc buf (item_wire i) (kv_wire kv),
)

-- `Bytes` of items whose values have a TYPED-DATA type is the concatenation of their encodings.
pub kv_bytes-wire : (kv : Kv) → All SendableItem kv → kv_bytes kv ≡ ok (kv_wire kv)
unfolding kv_bytes
kv_bytes-wire kv h = bytes_loop-wire kv [] h

pub read_item-wire :
    (i : Item) (rest : List ℕ)
    → SendableItem i
    → read_item (item_wire i ++ rest) ≡ ok (received_item i, rest, length (item_wire i))
unfolding read_item
read_item-wire i rest (hi, s) =
    let tail : List ℕ = wire i.value ++ rest in
    let fits : ltb (length (i.name ++ tail)) (length i.name) ≡ false =
      le→ltb (length (i.name ++ tail)) (length i.name) (omega (arith, length-append i.name tail)) in
    rw
      (
        append_assoc (encoding (length i.name)) (i.name ++ wire i.value) rest,
        append_assoc i.name (wire i.value) rest,
      )
      (ground (
        arith,
        uvarint-uvarint_bytes (length i.name) (i.name ++ tail) (omega arith),
        slice_from-append (encoding (length i.name)) (i.name ++ tail),
        fits,
        slice_to-append i.name tail,
        slice_from-append i.name tail,
        decode-wire i.value rest hi.1 s,
        slice_from-append (wire i.value) rest,
        length-append (encoding (length i.name)) (i.name ++ wire i.value),
        length-append i.name (wire i.value),
      ))

pub item_wire-pos : (i : Item) → SendableItem i → 0 < length (item_wire i)
item_wire-pos i h = omega (
  arith,
  length-append (encoding (length i.name)) (i.name ++ wire i.value),
  length-append i.name (wire i.value),
  wire-pos i.value h.1,
)

unmarshal_loop_step :
    (fuel : ℕ) (buf : List ℕ) (kv : Kv) {item : Item} {rest : List ℕ} {n : ℕ}
    → 0 < length buf
    → read_item buf ≡ ok (item, rest, n)
    → unmarshal_loop (suc fuel) buf kv ≡ unmarshal_loop fuel rest (kv ++ (item ∷ []))
unfolding unmarshal_loop
unmarshal_loop_step fuel [] kv h e = absurd (omega arith)
unmarshal_loop_step fuel (b ∷ buf) kv h e = rw (e, unmarshal_loop)

unmarshal_nb_loop_step :
    (i : ℕ) (buf : List ℕ) (read : ℕ) (kv : Kv) {item : Item} {rest : List ℕ} {n : ℕ}
    → 0 < length buf
    → read_item buf ≡ ok (item, rest, n)
    → unmarshal_nb_loop (suc i) buf read kv
      ≡ unmarshal_nb_loop i rest (read + n) (kv ++ (item ∷ []))
unfolding unmarshal_nb_loop
unmarshal_nb_loop_step i [] read kv h e = absurd (omega arith)
unmarshal_nb_loop_step i (b ∷ buf) read kv h e = rw (e, unmarshal_nb_loop)

unmarshal_loop-wire :
    (sent : Kv) (fuel : ℕ) (kv : Kv)
    → length (kv_wire sent) ≤ fuel
    → All SendableItem sent
    → unmarshal_loop fuel (kv_wire sent) kv ≡ (kv ++ map received_item sent, ok tt)
unmarshal_loop-wire [] fuel kv hf h = rw append-nil (unfold unmarshal_loop in refl)
unmarshal_loop-wire (i ∷ sent) zero kv hf (hi, h) =
    absurd (omega (arith, length-append (item_wire i) (kv_wire sent), item_wire-pos i hi))
unmarshal_loop-wire (i ∷ sent) (suc fuel) kv hf (hi, h) =
    let len = length-append (item_wire i) (kv_wire sent) in
    let pos = item_wire-pos i hi in
    unmarshal_loop_step fuel (item_wire i ++ kv_wire sent) kv (omega arith)
      (read_item-wire i (kv_wire sent) hi)
    ∙ unmarshal_loop-wire sent fuel (kv ++ (received_item i ∷ [])) (omega arith) h
    ∙ rw append_assoc

pub unmarshal-kv_wire :
    (sent kv : Kv)
    → All SendableItem sent
    → unmarshal kv (kv_wire sent) ≡ (kv ++ map received_item sent, ok tt)
unfolding unmarshal
unmarshal-kv_wire sent kv h = unmarshal_loop-wire sent _ kv (omega arith) h

-- Round trip: `Unmarshal` of the bytes that `Bytes` wrote adds the items sent, in order, with
-- the values that `Decode` gives back, and reports no error.
pub unmarshal-kv_bytes :
    (sent kv : Kv)
    → All SendableItem sent
    → (buf : List ℕ) × (kv_bytes sent ≡ ok buf)
      × (unmarshal kv buf ≡ (kv ++ map received_item sent, ok tt))
unmarshal-kv_bytes sent kv h = (kv_wire sent, kv_bytes-wire sent h, unmarshal-kv_wire sent kv h)

unmarshal_nb_loop-wire :
    (sent : Kv) (rest : List ℕ) (read : ℕ) (kv : Kv)
    → All SendableItem sent
    → unmarshal_nb_loop (length sent) (kv_wire sent ++ rest) read kv
      ≡ (kv ++ map received_item sent, ok (read + length (kv_wire sent)))
unmarshal_nb_loop-wire [] rest read kv h = rw append-nil (unfold unmarshal_nb_loop in ground arith)
unmarshal_nb_loop-wire (i ∷ sent) rest read kv (hi, h) =
    let tail : List ℕ = kv_wire sent ++ rest in
    rw append_assoc (
      unmarshal_nb_loop_step (length sent) (item_wire i ++ tail) read kv
        (omega (arith, length-append (item_wire i) tail, item_wire-pos i hi))
        (read_item-wire i tail hi)
      ∙ unmarshal_nb_loop-wire sent rest (read + length (item_wire i))
          (kv ++ (received_item i ∷ [])) h
      ∙ ground (
        arith,
        append_assoc kv (received_item i ∷ []) (map received_item sent),
        length-append (item_wire i) (kv_wire sent),
      ))

-- The same for `UnmarshalNB`, which is told how many items there are: it stops behind the last
-- one, whatever follows, and returns how many bytes they took.
pub unmarshal_nb-wire :
    (sent : Kv) (rest : List ℕ) (kv : Kv)
    → All SendableItem sent
    → unmarshal_nb kv (kv_wire sent ++ rest) (length sent)
      ≡ (kv ++ map received_item sent, ok (length (kv_wire sent)))
unfolding unmarshal_nb
unmarshal_nb-wire sent rest kv h = unmarshal_nb_loop-wire sent rest 0 kv h ∙ ground arith
