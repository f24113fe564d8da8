-- ===== src/TypedData.antt =====
-- typeddata/typeddata.go: TYPED-DATA values. The `any` that `Encode` takes is a `Value`, one
-- constructor for each case of its type switch; `other` stands for every type the switch lacks.
-- Signed numbers are integers, strings and slices are lists of bytes; `int` has 64 bits.
pub mod Safety
pub mod Encoding
pub mod Wire
mod Runs
use spop.Base.{
  ℕ, ◌+◌, ◌/◌, ◌%◌, ◌^◌, ◌<◌, ◌≡◌, bit_and, Bool, true, false, List, [], ◌∷◌, ◌++◌, Option, none,
  some, Result, ok, err, ◌>>=◌, empty_buffer, decoding_buffer_too_small, truncated_varint,
  invalid_ip, unsupported_value, unsupported_type, ltb, ◌==◌, ◌&&◌, eq_bytes, if◌then◌else◌, length,
  take, drop, replicate, slice_to, slice_from, ℤ, to_uint64, to_int32, to_int64, All, IsByte,
  FitsSigned, IsU32, IsU64,
}
use spop.Varint.{uvarint_bytes, uvarint}

pub data Value : Type 0 where
  null : Value
  bool : Bool → Value
  int32 int int64 : ℤ → Value
  uint32 uint uint64 : ℕ → Value
  string ip bytes : List ℕ → Value
  other : Value

abbrev pub type_null : ℕ
type_null = 0

abbrev pub type_boolean : ℕ
type_boolean = 1

abbrev pub type_int32 : ℕ
type_int32 = 2

abbrev pub type_uint32 : ℕ
type_uint32 = 3

abbrev pub type_int64 : ℕ
type_int64 = 4

abbrev pub type_uint64 : ℕ
type_uint64 = 5

abbrev pub type_ipv4 : ℕ
type_ipv4 = 6

abbrev pub type_ipv6 : ℕ
type_ipv6 = 7

abbrev pub type_string : ℕ
type_string = 8

abbrev pub type_binary : ℕ
type_binary = 9

abbrev pub ipv4_len : ℕ
ipv4_len = 4

abbrev pub ipv6_len : ℕ
ipv6_len = 16

-- The first 12 bytes of the IPv4 addresses that net.IP keeps in 16 bytes.
abbrev pub v4_in_v6_prefix : List ℕ
v4_in_v6_prefix = replicate 10 0 ++ 0xff ∷ 0xff ∷ []

-- The standard library's `net.IP.To4` and `net.IP.To16`; `none` is nil.
unfoldable pub to4 : List ℕ → Option (List ℕ)
to4 v =
    if length v == ipv4_len
    then some v
    else if length v == ipv6_len && eq_bytes (take 12 v) v4_in_v6_prefix
    then some (drop 12 v)
    else none

unfoldable pub to16 : List ℕ → Option (List ℕ)
to16 v =
    if length v == ipv4_len
    then some (v4_in_v6_prefix ++ v)
    else if length v == ipv6_len
    then some v
    else none

-- The cases of `Encode` that write a type byte and a varint.
encode_varint : ℕ → ℕ → List ℕ → Result (List ℕ × ℕ)
encode_varint t n buf = do b ← uvarint_bytes n; ok (buf ++ (t ∷ b), length b + 1)

-- The cases that write a type byte, a length and the bytes.
encode_sized : ℕ → List ℕ → List ℕ → Result (List ℕ × ℕ)
encode_sized t v buf = do
  b ← uvarint_bytes (length v)
  ok (buf ++ (t ∷ (b ++ v)), 1 + length b + length v)

encode_ip : List ℕ → List ℕ → Result (List ℕ × ℕ)
encode_ip v buf = elim (to4 v) [
  | some v4 ↦ ok (buf ++ (type_ipv4 ∷ v4), 1 + ipv4_len)
  | none ↦ elim (to16 v) [
    | none ↦ err invalid_ip
    | some v6 ↦ ok (buf ++ (type_ipv6 ∷ v6), 1 + ipv6_len)
  ]
]

-- The buffer and the count of `Encode`, or its error.
unfoldable pub encode : Value → List ℕ → Result (List ℕ × ℕ)
unfolding encode_varint encode_sized encode_ip
encode null buf = ok (buf ++ (type_null ∷ []), 1)
encode (bool v) buf = ok (buf ++ ((if v then 0x11 else 0x01) ∷ []), 1)
encode (int32 v) buf = encode_varint type_int32 (to_uint64 v) buf
encode (uint32 v) buf = encode_varint type_uint32 v buf
encode (int v) buf = encode_varint type_int64 (to_uint64 v) buf
encode (int64 v) buf = encode_varint type_int64 (to_uint64 v) buf
encode (uint v) buf = encode_varint type_uint64 v buf
encode (uint64 v) buf = encode_varint type_uint64 v buf
encode (string v) buf = encode_sized type_string v buf
encode (ip v) buf = encode_ip v buf
encode (bytes v) buf = encode_sized type_binary v buf
encode other buf = err unsupported_value

decode_varint : (ℕ → Value) → List ℕ → Result (Value × ℕ)
decode_varint convert buf = elim (uvarint buf) [
  | none ↦ err truncated_varint
  | some (i, l) ↦ ok (convert i, 1 + l)
]

decode_fixed : (List ℕ → Value) → ℕ → List ℕ → Result (Value × ℕ)
decode_fixed convert size buf =
    if ltb (length buf) size
    then err decoding_buffer_too_small
    else (slice_to buf size >>= λ v. ok (convert v, 1 + size))

decode_sized : (List ℕ → Value) → List ℕ → Result (Value × ℕ)
decode_sized convert buf = elim (uvarint buf) [
  | none ↦ err truncated_varint
  | some (len, i) ↦ do
    rest ← slice_from buf i
    if ltb (length rest) len
        then err decoding_buffer_too_small
        else (slice_to rest len >>= λ v. ok (convert v, 1 + i + len))
]

-- The switch of `Decode`, on the type t and the flags f of the first byte.
decode_body : ℕ → ℕ → List ℕ → Result (Value × ℕ)
unfolding decode_varint decode_fixed decode_sized
decode_body t f buf =
    if t == type_null
    then ok (null, 1)
    else if t == type_boolean
    then ok (bool (ltb 0 (bit_and f 0x01)), 1)
    else if t == type_int32
    then decode_varint (λ i. int32 (to_int32 i)) buf
    else if t == type_uint32
    then decode_varint (λ i. uint32 (i % 2 ^ 32)) buf
    else if t == type_int64
    then decode_varint (λ i. int64 (to_int64 i)) buf
    else if t == type_uint64
    then decode_varint uint64 buf
    else if t == type_ipv4
    then decode_fixed ip ipv4_len buf
    else if t == type_ipv6
    then decode_fixed ip ipv6_len buf
    else if t == type_string
    then decode_sized string buf
    else if t == type_binary
    then decode_sized bytes buf
    else err unsupported_type

-- The value and the count of `Decode`, or its error. The count that Go returns beside an error,
-- which no caller reads, is left out.
unfoldable pub decode : List ℕ → Result (Value × ℕ)
unfolding decode_body
decode [] = err empty_buffer
decode (b ∷ buf) = decode_body (bit_and b 0x0F) (b / 16) buf

-- The values of the Go types; a length is an `int`, below 2 ^ 63.
abbrev pub IsString : List ℕ → Type 0
IsString s = All IsByte s × (length s < 2 ^ 63)

abbrev pub IsValue : Value → Type 0
IsValue null = Unit {0}
IsValue (bool b) = Unit {0}
IsValue (int32 z) = FitsSigned 31 z
IsValue (uint32 n) = IsU32 n
IsValue (int z) = FitsSigned 63 z
IsValue (int64 z) = FitsSigned 63 z
IsValue (uint n) = IsU64 n
IsValue (uint64 n) = IsU64 n
IsValue (string s) = IsString s
IsValue (ip s) = IsString s
IsValue (bytes s) = IsString s
IsValue other = Unit {0}
