-- ===== src/Kv/Runs.antt =====
-- Runs of kv.go at concrete inputs, and its theorems there.
use spop.Base.{
  ℕ, ◌≡◌, refl, true, List, [], ◌∷◌, ◌++◌, map, ok, err, All, arith, length, codes,
  truncated_key_length, slice_from, slice_to,
}
use spop.Varint.{uvarint, uvarint_bytes}
use spop.TypedData.{bool, uint32, string, encode, decode}
use spop.Kv.{Kv, new_kv, add, kv_bytes, unmarshal, unmarshal_nb}
use spop.Kv.Safety.{Unmarshals, UnmarshalsNb, unmarshal-Unmarshals, unmarshal_nb-UnmarshalsNb}
use spop.Kv.Wire.{SendableItem, kv_wire, received_item, unmarshal-kv_bytes, unmarshal_nb-wire}

abbrev hello_items : Kv
hello_items =
    record { name = codes "version"; value = string (codes "2.0") }
    ∷ record { name = codes "max-frame-size"; value = uint32 16384 }
    ∷ []

abbrev flag_item : List ℕ
flag_item = 1 ∷ 0x61 ∷ 0x11 ∷ []

bytes_flag : kv_bytes (add new_kv (codes "a") (bool true)) ≡ ok flag_item
unfolding kv_bytes add uvarint_bytes encode slice_to
bytes_flag = refl

unmarshal_flag : unmarshal new_kv flag_item ≡ (add new_kv (codes "a") (bool true), ok tt)
unfolding unmarshal add uvarint decode slice_from slice_to
unmarshal_flag = refl

-- The item in front of the cut one stays.
unmarshal_cut :
    unmarshal new_kv (flag_item ++ 250 ∷ [])
    ≡ (add new_kv (codes "a") (bool true), err truncated_key_length)
unfolding unmarshal add uvarint decode slice_from slice_to
unmarshal_cut = refl

unmarshal-Unmarshals_example :
    Unmarshals hello_items 4 (unmarshal hello_items (flag_item ++ 250 ∷ []))
unmarshal-Unmarshals_example =
    unmarshal-Unmarshals hello_items (flag_item ++ 250 ∷ []) (omega arith, omega arith)

unmarshal_nb-UnmarshalsNb_example :
    UnmarshalsNb new_kv 1 0 4 (unmarshal_nb new_kv (flag_item ++ 250 ∷ []) 1)
unmarshal_nb-UnmarshalsNb_example =
    unmarshal_nb-UnmarshalsNb new_kv (flag_item ++ 250 ∷ []) 1 (omega arith, omega arith)

hello_items-Sendable : All SendableItem hello_items
hello_items-Sendable = (((omega arith, omega arith), tt), (((omega arith, omega arith), tt), tt))

unmarshal-kv_bytes_example :
    (buf : List ℕ) × (kv_bytes hello_items ≡ ok buf)
    × (unmarshal new_kv buf ≡ (map received_item hello_items, ok tt))
unmarshal-kv_bytes_example = unmarshal-kv_bytes hello_items new_kv hello_items-Sendable

unmarshal_nb-wire_example :
    unmarshal_nb new_kv (kv_wire hello_items ++ 1 ∷ 2 ∷ []) 2
    ≡ (map received_item hello_items, ok (length (kv_wire hello_items)))
unmarshal_nb-wire_example = unmarshal_nb-wire hello_items (1 ∷ 2 ∷ []) new_kv hello_items-Sendable
