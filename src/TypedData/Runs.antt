-- ===== src/TypedData/Runs.antt =====
-- Runs of typeddata.go at concrete inputs, and its theorems there.
use spop.Base.{
  List, ℕ, ◌≡◌, ◌⊎◌, inl, inr, refl, true, [], ◌∷◌, ◌++◌, ok, err, arith, length, invalid_ip,
  unsupported_value, decoding_buffer_too_small, Safely, negsuc, codes, to_uint64, slice_from,
  slice_to, eq_bytes,
}
use spop.Varint.{uvarint, uvarint_bytes}
use spop.TypedData.{Value, bool, int32, string, ip, encode, decode, to4, v4_in_v6_prefix}
use spop.TypedData.Safety.{Within, decode-Within}
use spop.TypedData.Wire.{wire, received, encode-wire, encode_refuses, decode-encode}

encode_flag : encode (bool true) (9 ∷ []) ≡ ok (9 ∷ 0x11 ∷ [], 1)
unfolding encode
encode_flag = refl

encode_minus_one :
    encode (int32 (negsuc 0)) []
    ≡ ok (2 ∷ 255 ∷ 240 ∷ 254 ∷ 254 ∷ 254 ∷ 254 ∷ 254 ∷ 254 ∷ 254 ∷ 14 ∷ [], 11)
unfolding encode uvarint_bytes to_uint64
encode_minus_one = refl

encode_mapped_address :
    encode (ip (v4_in_v6_prefix ++ 10 ∷ 0 ∷ 0 ∷ 1 ∷ [])) [] ≡ ok (6 ∷ 10 ∷ 0 ∷ 0 ∷ 1 ∷ [], 5)
unfolding encode to4 eq_bytes
encode_mapped_address = refl

decode_text : decode (0x08 ∷ 2 ∷ 0x68 ∷ 0x69 ∷ 7 ∷ []) ≡ ok (string (codes "hi"), 4)
unfolding decode uvarint slice_from slice_to
decode_text = refl

decode_short : decode (0x08 ∷ 3 ∷ 0x68 ∷ 0x69 ∷ []) ≡ err decoding_buffer_too_small
unfolding decode uvarint slice_from slice_to
decode_short = refl

decode-Within_example : Safely (Within (0x08 ∷ 250 ∷ [])) (decode (0x08 ∷ 250 ∷ []))
decode-Within_example = decode-Within (0x08 ∷ 250 ∷ []) (omega arith) (omega arith)

abbrev minus_two : Value
minus_two = int32 (negsuc 1)

encode-wire_example : encode minus_two (1 ∷ []) ≡ ok (1 ∷ wire minus_two, length (wire minus_two))
encode-wire_example = encode-wire minus_two (1 ∷ []) (omega arith) tt

decode-encode_example :
    (sent : List ℕ) × (n : ℕ) × (encode (string (codes "hi")) (5 ∷ []) ≡ ok ((5 ∷ []) ++ sent, n))
    × (decode (sent ++ (7 ∷ [])) ≡ ok (received (string (codes "hi")), n))
decode-encode_example = decode-encode (string (codes "hi")) (5 ∷ []) (7 ∷ []) (omega arith) tt

three_bytes : ¬ ((length {A = ℕ} (1 ∷ 2 ∷ 3 ∷ []) ≡ 4) ⊎ (length {A = ℕ} (1 ∷ 2 ∷ 3 ∷ []) ≡ 16))
three_bytes (inl e) = omega arith
three_bytes (inr e) = omega arith

encode_refuses_example :
    (encode (ip (1 ∷ 2 ∷ 3 ∷ [])) [] ≡ err invalid_ip)
    ⊎ (encode (ip (1 ∷ 2 ∷ 3 ∷ [])) [] ≡ err unsupported_value)
encode_refuses_example = encode_refuses (ip (1 ∷ 2 ∷ 3 ∷ [])) [] three_bytes
