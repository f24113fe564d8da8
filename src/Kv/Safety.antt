-- ===== src/Kv/Safety.antt =====
-- `Unmarshal` and `UnmarshalNB` on any bytes, and lookup by name.
use spop.Base.{
  ℕ, zero, suc, ◌+◌, ◌-◌, ◌^◌, ◌≤◌, ◌<◌, ◌≡◌, refl, List, [], ◌∷◌, ◌++◌, Option, none, some, Result,
  ok, err, Safely, returns, refuses, Safely-map, Safely-cases, sym, ◌∙◌, append-nil, append_assoc,
  Error, Safely-bind, Safely-refuse_if, slice_to-Safely, slice_from-Safely, ltb, ltb→le, length,
  take, drop, length-take, length-drop, All, IsByte, All-take, All-drop, Option-cases, inl, inr,
  arith, eq_bytes, if◌then◌else◌,
}
use spop.Varint.{uvarint}
use spop.TypedData.{Value}
use spop.TypedData.Safety.{uvarint_within, decode-Within}
use spop.Kv.{
  Item, Kv, add, get, read_item, unmarshal_loop, unmarshal, unmarshal_nb_loop, unmarshal_nb, IsItem,
}

-- A slice that the machine can hold.
abbrev pub IsBuffer : List ℕ → Type 0
IsBuffer buf = All IsByte buf × (length buf < 2 ^ 63)

pub IsBuffer-drop : (n : ℕ) (buf : List ℕ) → IsBuffer buf → IsBuffer (drop n buf)
IsBuffer-drop n buf h = (All-drop IsByte n buf h.0, omega (arith, length-drop n buf))

pub IsBuffer-take : (n : ℕ) (buf : List ℕ) → IsBuffer buf → IsBuffer (take n buf)
IsBuffer-take n buf h = (All-take IsByte n buf h.0, omega (arith, length-take n buf))

abbrev pub ItemWithin : List ℕ → Item × List ℕ × ℕ → Type 0
ItemWithin buf (item, rest, n) =
    IsItem item × IsBuffer rest × (1 ≤ n) × (length rest + n ≡ length buf)

pub read_item-Safely : (buf : List ℕ) → IsBuffer buf → Safely (ItemWithin buf) (read_item buf)
unfolding read_item
read_item-Safely buf h = elim (Option-cases (uvarint buf)) [
  | inl e ↦ rw (e, read_item) refuses
  | inr ((key_len, n), e) ↦
      let (small, lo, hi) = uvarint_within buf key_len n h.0 e in
      rw (e, read_item)
        (Safely-bind (slice_from-Safely buf n hi) λ after_len p.
          Safely-refuse_if (ltb (length after_len) key_len) _ λ q.
            let room : key_len ≤ length after_len = ltb→le _ _ q in
            let IsLen : IsBuffer after_len = rw p (IsBuffer-drop n buf h) in
            let len : length after_len ≡ length buf - n = rw p (length-drop n buf) in
            Safely-bind (slice_to-Safely after_len key_len room) λ key r.
              Safely-bind (slice_from-Safely after_len key_len room) λ after_key s.
                let IsKey : IsBuffer after_key = rw s (IsBuffer-drop key_len after_len IsLen) in
                let len' : length after_key ≡ length after_len - key_len =
                  rw s (length-drop key_len after_len) in
                Safely-bind (decode-Within after_key IsKey.0 IsKey.1) λ (value, m) w.
                  Safely-bind (slice_from-Safely after_key m w.2) λ rest t.
                    let len'' : length rest ≡ length after_key - m =
                      rw t (length-drop m after_key) in
                    returns (
                      (rw r (IsBuffer-take key_len after_len IsLen), w.0),
                      rw t (IsBuffer-drop m after_key IsKey),
                      omega arith,
                      omega arith,
                    ))
]

unmarshal_loop_ok :
    (fuel b : ℕ) (buf : List ℕ) (kv : Kv) {item : Item} {rest : List ℕ} {n : ℕ}
    → read_item (b ∷ buf) ≡ ok (item, rest, n)
    → unmarshal_loop (suc fuel) (b ∷ buf) kv ≡ unmarshal_loop fuel rest (kv ++ (item ∷ []))
unfolding unmarshal_loop
unmarshal_loop_ok fuel b buf kv e = rw (e, unmarshal_loop)

unmarshal_loop_err :
    (fuel b : ℕ) (buf : List ℕ) (kv : Kv) {e : Error}
    → read_item (b ∷ buf) ≡ err e
    → unmarshal_loop (suc fuel) (b ∷ buf) kv ≡ (kv, err e)
unfolding unmarshal_loop
unmarshal_loop_err fuel b buf kv e = rw (e, unmarshal_loop)

unmarshal_nb_loop_ok :
    (i b : ℕ) (buf : List ℕ) (read : ℕ) (kv : Kv) {item : Item} {rest : List ℕ} {n : ℕ}
    → read_item (b ∷ buf) ≡ ok (item, rest, n)
    → unmarshal_nb_loop (suc i) (b ∷ buf) read kv
      ≡ unmarshal_nb_loop i rest (read + n) (kv ++ (item ∷ []))
unfolding unmarshal_nb_loop
unmarshal_nb_loop_ok i b buf read kv e = rw (e, unmarshal_nb_loop)

unmarshal_nb_loop_err :
    (i b : ℕ) (buf : List ℕ) (read : ℕ) (kv : Kv) {e : Error}
    → read_item (b ∷ buf) ≡ err e
    → unmarshal_nb_loop (suc i) (b ∷ buf) read kv ≡ (kv, err e)
unfolding unmarshal_nb_loop
unmarshal_nb_loop_err i b buf read kv e = rw (e, unmarshal_nb_loop)

-- The call keeps the items of `kv`, adds the ones it read, and ends without a fault.
abbrev pub Unmarshals : Kv → ℕ → Kv × Result (Unit {0}) → Type 0
Unmarshals kv room (kv', r) =
    (new : Kv) × (kv' ≡ kv ++ new) × All IsItem new × (length new ≤ room) × Safely (λ _. Unit {0}) r

unmarshal_loop-Unmarshals :
    (fuel : ℕ) (buf : List ℕ) (kv : Kv)
    → length buf ≤ fuel
    → IsBuffer buf
    → Unmarshals kv (length buf) (unmarshal_loop fuel buf kv)
unmarshal_loop-Unmarshals fuel [] kv hf h =
    unfold unmarshal_loop in ([], sym (append-nil kv), tt, omega arith, returns tt)
unmarshal_loop-Unmarshals zero (b ∷ buf) kv hf h = absurd (omega arith)
unmarshal_loop-Unmarshals (suc fuel) (b ∷ buf) kv hf h =
    elim (Safely-cases (read_item-Safely (b ∷ buf) h)) [
      | inr (x, e) ↦
          rw (unmarshal_loop_err fuel b buf kv e)
            ([], sym (append-nil kv), tt, omega arith, refuses)
      | inl ((item, rest, n), e, w) ↦
          let (new, split, fine, len, safe) =
            unmarshal_loop-Unmarshals fuel rest (kv ++ (item ∷ [])) (omega arith) w.1 in
          rw (unmarshal_loop_ok fuel b buf kv e)
            (item ∷ new, split ∙ append_assoc kv (item ∷ []) new, (w.0, fine), omega arith, safe)
    ]

-- `Unmarshal` on any bytes ends, without a fault: no index or slice bound passes the buffer.
-- Whether it fails or not, the KV keeps its items in front and gains only whole items of proper
-- values, at most one for each byte.
pub unmarshal-Unmarshals :
    (kv : Kv) (buf : List ℕ) → IsBuffer buf → Unmarshals kv (length buf) (unmarshal kv buf)
unfolding unmarshal
unmarshal-Unmarshals kv buf h = unmarshal_loop-Unmarshals (length buf) buf kv (omega arith) h

abbrev pub UnmarshalsNb : Kv → ℕ → ℕ → ℕ → Kv × Result ℕ → Type 0
UnmarshalsNb kv count read room (kv', r) =
    (new : Kv) × (kv' ≡ kv ++ new)
    × All IsItem new
    × (length new ≤ count)
    × Safely (λ n. (length new ≡ count) × (read + count ≤ n) × (n ≤ read + room)) r

unmarshal_nb_loop-UnmarshalsNb :
    (i : ℕ) (buf : List ℕ) (read : ℕ) (kv : Kv)
    → IsBuffer buf
    → UnmarshalsNb kv i read (length buf) (unmarshal_nb_loop i buf read kv)
unmarshal_nb_loop-UnmarshalsNb zero buf read kv h =
    unfold unmarshal_nb_loop in
    ([], sym (append-nil kv), tt, omega arith, returns {a = read} (omega arith))
unmarshal_nb_loop-UnmarshalsNb (suc i) [] read kv h =
    unfold unmarshal_nb_loop in ([], sym (append-nil kv), tt, omega arith, refuses)
unmarshal_nb_loop-UnmarshalsNb (suc i) (b ∷ buf) read kv h =
    elim (Safely-cases (read_item-Safely (b ∷ buf) h)) [
      | inr (x, e) ↦
          rw (unmarshal_nb_loop_err i b buf read kv e)
            ([], sym (append-nil kv), tt, omega arith, refuses)
      | inl ((item, rest, n), e, w) ↦
          let (new, split, fine, len, safe) =
            unmarshal_nb_loop-UnmarshalsNb i rest (read + n) (kv ++ (item ∷ [])) w.1 in
          rw (unmarshal_nb_loop_ok i b buf read kv e) (
            item ∷ new,
            split ∙ append_assoc kv (item ∷ []) new,
            (w.0, fine),
            omega arith,
            Safely-map (λ m k. omega arith) safe,
          )
    ]

-- `UnmarshalNB` on any bytes ends without a fault. The KV keeps its items in front and gains
-- whole items of proper values; on success these are exactly `count`, and the count of bytes that
-- is returned is at least `count` and at most the buffer's length.
pub unmarshal_nb-UnmarshalsNb :
    (kv : Kv) (buf : List ℕ) (count : ℕ)
    → IsBuffer buf
    → UnmarshalsNb kv count 0 (length buf) (unmarshal_nb kv buf count)
unfolding unmarshal_nb
unmarshal_nb-UnmarshalsNb kv buf count h = unmarshal_nb_loop-UnmarshalsNb count buf 0 kv h

abbrev pub or_else : Option Value → Option Value → Option Value
or_else none o = o
or_else (some v) o = some v

-- A lookup after `Add` finds an earlier item of that name first, and the new one otherwise.
pub get-add :
    (kv : Kv) (key j : List ℕ) (v : Value)
    → get (add kv key v) j ≡ or_else (get kv j) (if eq_bytes key j then some v else none)
unfolding get add
get-add [] key j v = refl
get-add (i ∷ kv) key j v = ground (arith, get-add kv key j v)
