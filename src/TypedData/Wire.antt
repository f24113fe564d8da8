-- ===== src/TypedData/Wire.antt =====
-- The TYPED-DATA form of a value, and the round trip through it.
use spop.Base.{
  ℕ, suc, ◌^◌, ◌<◌, ◌≡◌, refl, ◌∙◌, true, false, List, [], ◌∷◌, ◌++◌, Option, none, some, ok, err,
  invalid_ip, unsupported_value, ltb, ◌==◌, if◌then◌else◌, length, length-drop, length-append,
  IsU64, to_uint64, to_uint64-IsU64, to_int32-to_uint64, to_int64-to_uint64, ◌⊎◌, inl, inr, arith,
  slice_from-append, slice_to-append, append_assoc, le→ltb,
}
use spop.Varint.RoundTrip.{encoding, uvarint_bytes-encoding, uvarint-uvarint_bytes}
use spop.TypedData.{
  Value, null, bool, int32, int, int64, uint32, uint, uint64, string, ip, bytes, other,
  decode_varint, decode_fixed, decode_sized, decode_body, encode_varint, encode_sized, encode_ip,
  encode, to4, to16, decode, IsValue, ipv4_len, ipv6_len,
}

or_same : Option (List ℕ) → List ℕ → List ℕ
or_same none v = v
or_same (some v4) v = v4

-- The 4 bytes of an IPv4 address in either width, the 16 bytes of any other address.
pub address : List ℕ → List ℕ
unfolding or_same
address v = or_same (to4 v) v

-- What arrives at the other end: `int` and `uint` come back as their 64-bit types, and an
-- IPv4 address in its 4 bytes.
pub received : Value → Value
received (int z) = int64 z
received (uint n) = uint64 n
received (ip v) = ip (address v)
received v = v

pub received-string : (s : List ℕ) → received (string s) ≡ string s
unfolding received
received-string s = refl

pub received-uint32 : (n : ℕ) → received (uint32 n) ≡ uint32 n
unfolding received
received-uint32 n = refl

-- The values that section 3.1 has a type for.
abbrev pub Sendable : Value → Type 0
Sendable (ip v) = (length v ≡ ipv4_len) ⊎ (length v ≡ ipv6_len)
Sendable other = ⊥
Sendable _ = Unit {0}

unfoldable pub wire : Value → List ℕ
wire null = 0 ∷ []
wire (bool v) = (if v then 0x11 else 0x01) ∷ []
wire (int32 z) = 2 ∷ encoding (to_uint64 z)
wire (uint32 n) = 3 ∷ encoding n
wire (int z) = 4 ∷ encoding (to_uint64 z)
wire (int64 z) = 4 ∷ encoding (to_uint64 z)
wire (uint n) = 5 ∷ encoding n
wire (uint64 n) = 5 ∷ encoding n
wire (string s) = 8 ∷ (encoding (length s) ++ s)
wire (ip v) = (if length (address v) == ipv4_len then 6 else 7) ∷ address v
wire (bytes s) = 9 ∷ (encoding (length s) ++ s)
wire other = []

pub wire-pos : (v : Value) → Sendable v → 0 < length (wire v)
unfolding wire
wire-pos null h = omega arith
wire-pos other h = elim h [ ]
wire-pos _ h = omega arith

encode_varint_lem :
    (t n : ℕ) (buf : List ℕ)
    → IsU64 n
    → encode_varint t n buf ≡ ok (buf ++ (t ∷ encoding n), suc (length (encoding n)))
unfolding encode_varint
encode_varint_lem t n buf h = rw (uvarint_bytes-encoding n h) (ground arith)

encode_sized_lem :
    (t : ℕ) (s buf : List ℕ)
    → length s < 2 ^ 63
    → encode_sized t s buf
      ≡ ok (buf ++ (t ∷ (encoding (length s) ++ s)), suc (length (encoding (length s) ++ s)))
unfolding encode_sized
encode_sized_lem t s buf h =
    rw (uvarint_bytes-encoding (length s) (omega arith))
      (ground (arith, length-append (encoding (length s)) s))

encode_ip_lem :
    (v buf : List ℕ)
    → Sendable (ip v)
    → encode_ip v buf ≡ ok (buf ++ wire (ip v), length (wire (ip v)))
unfolding encode_ip wire address to4 to16
encode_ip_lem v buf h = ground (arith, length-drop 12 v)

-- `Encode` of a value with a TYPED-DATA type appends its bytes to the buffer and counts them.
pub encode-wire :
    (v : Value) (buf : List ℕ)
    → IsValue v
    → Sendable v
    → encode v buf ≡ ok (buf ++ wire v, length (wire v))
unfolding encode wire
encode-wire null buf h s = refl
encode-wire (bool b) buf h s = refl
encode-wire (int32 z) buf h s = encode_varint_lem 2 _ buf (to_uint64-IsU64 z)
encode-wire (uint32 n) buf h s = encode_varint_lem 3 n buf (omega arith)
encode-wire (int z) buf h s = encode_varint_lem 4 _ buf (to_uint64-IsU64 z)
encode-wire (int64 z) buf h s = encode_varint_lem 4 _ buf (to_uint64-IsU64 z)
encode-wire (uint n) buf h s = encode_varint_lem 5 n buf h
encode-wire (uint64 n) buf h s = encode_varint_lem 5 n buf h
encode-wire (string v) buf h s = encode_sized_lem 8 v buf h.1
encode-wire (ip v) buf h s = encode_ip_lem v buf s
encode-wire (bytes v) buf h s = encode_sized_lem 9 v buf h.1
encode-wire other buf h s = elim s [ ]

-- Every other value is refused, and the buffer is not extended.
pub encode_refuses :
    (v : Value) (buf : List ℕ)
    → ¬ Sendable v
    → (encode v buf ≡ err invalid_ip) ⊎ (encode v buf ≡ err unsupported_value)
unfolding encode to4 to16
encode_refuses (ip v) buf h =
    inl (ground (arith, λ (e : length v ≡ 4). h (inl e), λ (e : length v ≡ 16). h (inr e)))
encode_refuses other buf h = inr refl
encode_refuses _ buf h = absurd (h tt)

decode_varint_lem :
    (convert : ℕ → Value) (n : ℕ) (rest : List ℕ)
    → IsU64 n
    → decode_varint convert (encoding n ++ rest) ≡ ok (convert n, suc (length (encoding n)))
unfolding decode_varint
decode_varint_lem convert n rest h =
    rw (uvarint-uvarint_bytes n rest h, decode_varint) (ground arith)

decode_sized_lem :
    (convert : List ℕ → Value) (s rest : List ℕ)
    → length s < 2 ^ 63
    → decode_sized convert ((encoding (length s) ++ s) ++ rest)
      ≡ ok (convert s, suc (length (encoding (length s) ++ s)))
unfolding decode_sized
decode_sized_lem convert s rest h =
    let fits : ltb (length (s ++ rest)) (length s) ≡ false =
      le→ltb (length (s ++ rest)) (length s) (omega (arith, length-append s rest)) in
    rw (append_assoc (encoding (length s)) s rest) (
      ground (
        arith,
        uvarint-uvarint_bytes (length s) (s ++ rest),
        slice_from-append (encoding (length s)) (s ++ rest),
        fits,
        slice_to-append s rest,
        length-append (encoding (length s)) s,
      ))

decode_fixed_lem :
    (v rest : List ℕ) → decode_fixed ip (length v) (v ++ rest) ≡ ok (ip v, suc (length v))
unfolding decode_fixed
decode_fixed_lem v rest =
    let fits : ltb (length (v ++ rest)) (length v) ≡ false =
      le→ltb (length (v ++ rest)) (length v) (omega (arith, length-append v rest)) in
    rw (fits, slice_to-append v rest) (ground arith)

-- The address that `wire` writes behind its type byte has one of the two widths.
address_width :
    (v : List ℕ) → Sendable (ip v) → (length (address v) ≡ 4) ⊎ (length (address v) ≡ 16)
unfolding address to4
address_width v s = ground (arith, length-drop 12 v)

decode_ip_lem :
    (v rest : List ℕ)
    → Sendable (ip v)
    → decode (wire (ip v) ++ rest) ≡ ok (received (ip v), length (wire (ip v)))
unfolding decode wire received decode_body
decode_ip_lem v rest s = elim (address_width v s) [
  | inl e ↦ let fixed = decode_fixed_lem (address v) rest in rw e (rw e at fixed)
  | inr e ↦ let fixed = decode_fixed_lem (address v) rest in rw e (rw e at fixed)
]

-- `Decode` on the bytes of a value, and on whatever follows them.
pub decode-wire :
    (v : Value) (rest : List ℕ)
    → IsValue v
    → Sendable v
    → decode (wire v ++ rest) ≡ ok (received v, length (wire v))
unfolding decode decode_body wire received
decode-wire null rest h s = refl
decode-wire (bool true) rest h s = refl
decode-wire (bool false) rest h s = refl
decode-wire (int32 z) rest h s =
    decode_varint_lem _ _ rest (to_uint64-IsU64 z) ∙ ground (arith, to_int32-to_uint64 z)
decode-wire (uint32 n) rest h s = decode_varint_lem _ n rest (omega arith) ∙ ground arith
decode-wire (int z) rest h s =
    decode_varint_lem _ _ rest (to_uint64-IsU64 z) ∙ ground (arith, to_int64-to_uint64 z)
decode-wire (int64 z) rest h s =
    decode_varint_lem _ _ rest (to_uint64-IsU64 z) ∙ ground (arith, to_int64-to_uint64 z)
decode-wire (uint n) rest h s = decode_varint_lem uint64 n rest h
decode-wire (uint64 n) rest h s = decode_varint_lem uint64 n rest h
decode-wire (string v) rest h s = decode_sized_lem string v rest h.1
decode-wire (ip v) rest h s = decode_ip_lem v rest s
decode-wire (bytes v) rest h s = decode_sized_lem bytes v rest h.1
decode-wire other rest h s = elim s [ ]

-- Round trip, for a value of its Go type that has a TYPED-DATA type: `Encode` appends bytes to the
-- buffer, and `Decode` on these bytes, and on whatever follows them, returns that value, an `int`
-- or `uint` as its 64-bit type and an IPv4 address in its 4 bytes, and the count that `Encode`
-- returned.
pub decode-encode :
    (v : Value) (buf rest : List ℕ)
    → IsValue v
    → Sendable v
    → (sent : List ℕ) × (n : ℕ) × (encode v buf ≡ ok (buf ++ sent, n))
      × (decode (sent ++ rest) ≡ ok (received v, n))
decode-encode v buf rest h s =
    (wire v, length (wire v), encode-wire v buf h s, decode-wire v rest h s)
