-- ===== src/Kv.antt =====
-- payload/kv/kv.go: the KV-LIST of a frame. A KV is its list of items; its `tmp` buffer is
-- scratch space that every use overwrites, as `uvarint_bytes` has it. An acquired KV is taken as a
-- new one here; Pool has the pool.
pub mod Safety
pub mod Encoding
pub mod Wire
mod Runs
use spop.Base.{
  ℕ, zero, suc, ◌+◌, ◌^◌, ◌<◌, List, [], ◌∷◌, ◌++◌, Option, none, some, Result, ok, err, fault,
  out_of_fuel, ◌>>=◌, ◌>>◌, refuse_if, truncated_key_length, wrong_buf_len,
  buffer_unexpectedly_ended, ltb, eq_bytes, if◌then◌else◌, length, slice_to, slice_from,
}
use spop.Varint.{uvarint_bytes, uvarint}
use spop.TypedData.{Value, encode, decode, IsString, IsValue}

pub record Item : Type 0 where
  pub name : List ℕ
  pub value : Value

abbrev pub Kv : Type 0
Kv = List Item

abbrev pub new_kv : Kv
new_kv = []

-- `Data`, `Reset`, `Add`
unfoldable pub items : Kv → List Item
items kv = kv

unfoldable pub reset : Kv → Kv
reset kv = []

unfoldable pub add : Kv → List ℕ → Value → Kv
add kv key value = kv ++ (record { name = key; value = value } ∷ [])

-- The first item of that name; `none` is (nil, false).
unfoldable pub get : Kv → List ℕ → Option Value
get [] key = none
get (item ∷ kv) key = if eq_bytes item.name key then some item.value else get kv key

bytes_loop : Kv → List ℕ → Result (List ℕ)
bytes_loop [] buf = ok buf
bytes_loop (item ∷ kv) buf = do
  key_len ← uvarint_bytes (length item.name)
  (encoded, n) ← encode item.value []
  value ← slice_to encoded n
  bytes_loop kv (buf ++ (key_len ++ (item.name ++ value)))

-- `Bytes`
unfoldable pub kv_bytes : Kv → Result (List ℕ)
unfolding bytes_loop
kv_bytes kv = bytes_loop kv []

-- The body that the loops of `Unmarshal` and `UnmarshalNB` share: the item read, the bytes behind
-- it and how many bytes it took.
pub read_item : List ℕ → Result (Item × List ℕ × ℕ)
read_item buf = elim (uvarint buf) [
  | none ↦ err truncated_key_length
  | some (key_len, n) ↦ do
    after_len ← slice_from buf n
    refuse_if (ltb (length after_len) key_len) wrong_buf_len
    key ← slice_to after_len key_len
    after_key ← slice_from after_len key_len
    (value, m) ← decode after_key
    rest ← slice_from after_key m
    ok (record { name = key; value = value }, rest, n + key_len + m)
]

-- The KV after the call, which keeps the items added before an error, and the error.
unmarshal_loop : ℕ → List ℕ → Kv → Kv × Result (Unit {0})
unmarshal_loop fuel [] kv = (kv, ok tt)
unmarshal_loop zero (b ∷ buf) kv = (kv, fault out_of_fuel)
unmarshal_loop (suc fuel) (b ∷ buf) kv = elim (read_item (b ∷ buf)) [
  | ok (item, rest, n) ↦ unmarshal_loop fuel rest (kv ++ (item ∷ []))
  | err e ↦ (kv, err e)
  | fault x ↦ (kv, fault x)
]

-- `Unmarshal`. An item takes a byte at least, so `length buf` rounds are enough.
unfoldable pub unmarshal : Kv → List ℕ → Kv × Result (Unit {0})
unfolding unmarshal_loop read_item
unmarshal kv buf = unmarshal_loop (length buf) buf kv

unmarshal_nb_loop : ℕ → List ℕ → ℕ → Kv → Kv × Result ℕ
unmarshal_nb_loop zero buf read_bytes kv = (kv, ok read_bytes)
unmarshal_nb_loop (suc i) [] read_bytes kv = (kv, err buffer_unexpectedly_ended)
unmarshal_nb_loop (suc i) (b ∷ buf) read_bytes kv = elim (read_item (b ∷ buf)) [
  | ok (item, rest, n) ↦ unmarshal_nb_loop i rest (read_bytes + n) (kv ++ (item ∷ []))
  | err e ↦ (kv, err e)
  | fault x ↦ (kv, fault x)
]

-- `UnmarshalNB`. The count that Go returns beside an error, which no caller reads, is left out.
unfoldable pub unmarshal_nb : Kv → List ℕ → ℕ → Kv × Result ℕ
unfolding unmarshal_nb_loop read_item
unmarshal_nb kv buf count = unmarshal_nb_loop count buf 0 kv

abbrev pub IsItem : Item → Type 0
IsItem i = IsString i.name × IsValue i.value
