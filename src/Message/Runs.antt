-- ===== src/Message/Runs.antt =====
-- Runs of the message package at concrete inputs, and its theorems there.
use spop.Base.{
  ◌≡◌, refl, true, [], ◌∷◌, ok, err, fault, out_of_range, arith, codes, missing_args_byte,
  slice_from, slice_to, eq_bytes, negsuc,
}
use spop.Varint.{uvarint}
use spop.TypedData.{bool, decode as decode_value}
use spop.Kv.{unmarshal_nb}
use spop.Message.{Message, decode, get_by_name, get_by_index}
use spop.Message.Safety.{Decodes, decode-Decodes}
use spop.Message.Wire.{IsSendable, messages_wire, received_message, decode-messages_wire}

abbrev check_ip : Message
check_ip = record {
  name = codes "check-ip";
  kv = record { name = codes "ok"; value = bool true } ∷ [];
}

decode_one : decode [] (1 ∷ 0x6d ∷ 1 ∷ 1 ∷ 0x6b ∷ 0x11 ∷ []) ≡ (
  record { name = codes "m"; kv = record { name = codes "k"; value = bool true } ∷ [] } ∷ [],
  ok tt,
)
unfolding decode uvarint slice_from slice_to unmarshal_nb decode_value
decode_one = refl

decode_cut : decode [] (1 ∷ 0x6d ∷ []) ≡ ([], err missing_args_byte)
unfolding decode uvarint slice_from slice_to
decode_cut = refl

by_name : get_by_name (check_ip ∷ []) (codes "check-ip") ≡ ok check_ip
unfolding get_by_name eq_bytes
by_name = refl

by_negative_index : get_by_index (check_ip ∷ []) (negsuc 0) ≡ fault out_of_range
unfolding get_by_index
by_negative_index = refl

decode-Decodes_example : Decodes [] (decode [] (1 ∷ 0x6d ∷ 9 ∷ 1 ∷ []))
decode-Decodes_example = decode-Decodes [] (1 ∷ 0x6d ∷ 9 ∷ 1 ∷ []) (omega arith, omega arith)

check_ip-IsSendable : IsSendable check_ip
check_ip-IsSendable = record {
  is_name = omega arith;
  are_items = (((omega arith, tt), tt), tt);
  nb_args = omega arith;
}

decode-messages_wire_example :
    decode [] (messages_wire (check_ip ∷ [])) ≡ (received_message check_ip ∷ [], ok tt)
decode-messages_wire_example = decode-messages_wire (check_ip ∷ []) [] (check_ip-IsSendable, tt)
