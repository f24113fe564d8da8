-- ===== src/Message.antt =====
-- message/message.go, messages.go and decode.go: the LIST-OF-MESSAGES of a NOTIFY. A message
-- from `AcquireMessage` is taken as a new one here, with an empty name and KV; Pool has the pool.
pub mod Safety
pub mod Wire
mod Runs
use spop.Base.{
  ℕ, zero, suc, ◌+◌, List, [], ◌∷◌, ◌++◌, Option, none, some, Result, ok, err, fault, out_of_fuel,
  out_of_range, ◌>>=◌, ◌>>◌, refuse_if, truncated_name_length, name_too_long, missing_args_byte,
  message_not_found, ltb, ◌==◌, eq_bytes, if◌then◌else◌, length, slice_to, slice_from, first, ℤ,
  pos, negsuc, get_elem?,
}
use spop.Varint.{uvarint}
use spop.Kv.{Kv, new_kv, unmarshal_nb}

pub record Message : Type 0 where
  pub name : List ℕ
  pub kv : Kv

abbrev pub Messages : Type 0
Messages = List Message

-- `Reset` hands every message back to the pool and empties the list.
unfoldable pub reset : Messages → Messages
reset messages = []

-- `GetByName`: the first message of that name.
unfoldable pub get_by_name : Messages → List ℕ → Result Message
get_by_name [] name = err message_not_found
get_by_name (m ∷ messages) name = if eq_bytes m.name name then ok m else get_by_name messages name

-- `GetByIndex` checks the upper bound only: a negative index is a Go panic.
unfoldable pub get_by_index : Messages → ℤ → Result Message
get_by_index messages (negsuc n) = fault out_of_range
get_by_index messages (pos n) = elim (get_elem? messages n) [
  | none ↦ err message_not_found
  | some m ↦ ok m
]

-- One round of the loop of `Decode`: the message, and the bytes behind it. On an error the
-- message goes back to the pool, with what its KV had read.
pub read_message : List ℕ → Result (Message × List ℕ)
read_message buf = elim (uvarint buf) [
  | none ↦ err truncated_name_length
  | some (name_len, n) ↦ do
    after_len ← slice_from buf n
    refuse_if (ltb (length after_len) name_len) name_too_long
    name ← slice_to after_len name_len
    after_name ← slice_from after_len name_len
    refuse_if (length after_name == 0) missing_args_byte
    nb_args ← first after_name
    after_nb ← slice_from after_name 1
    let unmarshalled = unmarshal_nb new_kv after_nb nb_args
    m ← unmarshalled.1
    rest ← slice_from after_nb m
    ok (record { name = name; kv = unmarshalled.0 }, rest)
]

unfoldable pub decode_loop : ℕ → List ℕ → Messages → Messages × Result (Unit {0})
decode_loop fuel [] messages = (messages, ok tt)
decode_loop zero (b ∷ buf) messages = (messages, fault out_of_fuel)
decode_loop (suc fuel) (b ∷ buf) messages = elim (read_message (b ∷ buf)) [
  | ok (message, rest) ↦ decode_loop fuel rest (messages ++ (message ∷ []))
  | err e ↦ (messages, err e)
  | fault x ↦ (messages, fault x)
]

-- `Decode`: the list after the call, which keeps the messages read before an error, and the
-- error. A message takes a byte at least, so `length buf` rounds are enough.
unfoldable pub decode : Messages → List ℕ → Messages × Result (Unit {0})
unfolding decode_loop read_message
decode messages buf = decode_loop (length buf) buf messages
