-- ===== src/Frame/RoundTrip.antt =====
-- `ReadLimit` on what `Encode` wrote.
use spop.Base.{
  ℕ, ◌+◌, ◌-◌, ◌^◌, ◌≤◌, ◌<◌, ◌≡◌, ◌∙◌, refl, true, false, not, ◌&&◌, List, [], ◌∷◌, ◌++◌, Option,
  ◌>>=◌, ok, Error, leb, le→ltb, le→leb, ==-refl, length, length-append, take-append, drop-append,
  append_assoc, append-nil, arith, min, IsU64, IsU32, slice_to, slice_from, slice_to-append,
  slice_from-append, truncated_stream_id, truncated_frame_id,
}
use spop.Varint.RoundTrip.{
  encoding, uvarint_bytes-encoding, uvarint-uvarint_bytes, encoding-Encodes,
}
use spop.Frame.{Frame, max_frame_size, is_fin, is_abort}
use spop.Frame.Encode.{
  after_write, put_uint32, encode_payload, encode_body, frame_len, framed, encode, Writer, wrote,
  buffer,
}
use spop.Frame.Read.{
  read_full, map_err, uint32_at, is_known_type, accepts_type, read_payload, read_varint, read_body,
  check_header, type_of_header, read_limit,
}

-- FRAME-TYPE, FLAGS, STREAM-ID, FRAME-ID and the payload.
abbrev pub body_wire : Frame → List ℕ → List ℕ
body_wire f payload =
    f.type ∷ (put_uint32 f.flags ++ (encoding f.stream_id ++ (encoding f.frame_id ++ payload)))

-- The fields of a frame are values of their Go types, and ABORT comes with FIN.
pub record IsWritable (f : Frame) : Type 0 where
  pub flags_word : IsU32 f.flags
  pub stream_word : IsU64 f.stream_id
  pub frame_word : IsU64 f.frame_id
  pub fin_with_abort : (is_abort f && not (is_fin f)) ≡ false

-- A frame is longer than its payload by 25 bytes at most.
pub length-body_wire-le :
    (f : Frame) (payload : List ℕ)
    → IsWritable f
    → length (body_wire f payload) ≤ 25 + length payload
unfolding put_uint32
length-body_wire-le f payload w = omega (
  arith,
  length-append (encoding f.stream_id) (encoding f.frame_id ++ payload),
  length-append (encoding f.frame_id) payload,
  (encoding-Encodes f.stream_id w.stream_word).width,
  (encoding-Encodes f.frame_id w.frame_word).width,
)

pub encode_body-wire :
    (f : Frame) (payload : List ℕ)
    → IsWritable f
    → encode_payload f ≡ ok payload
    → encode_body f ≡ ok (body_wire f payload)
unfolding encode_body
encode_body-wire f payload w e = ground (
  arith,
  w.fin_with_abort,
  uvarint_bytes-encoding f.stream_id w.stream_word,
  uvarint_bytes-encoding f.frame_id w.frame_word,
)

uint32_at-put_uint32 : (n : ℕ) (rest : List ℕ) → IsU32 n → uint32_at (put_uint32 n ++ rest) ≡ n
unfolding uint32_at put_uint32
uint32_at-put_uint32 n rest h = omega arith

length-put_uint32 : (n : ℕ) → length (put_uint32 n) ≡ 4
unfolding put_uint32
length-put_uint32 n = refl

flags_at_four : (n : ℕ) (rest : List ℕ) → slice_to (put_uint32 n ++ rest) 4 ≡ ok (put_uint32 n)
flags_at_four n rest = rw (length-put_uint32 n) at (slice_to-append (put_uint32 n) rest)

behind_flags : (n : ℕ) (rest : List ℕ) → slice_from (put_uint32 n ++ rest) 4 ≡ ok rest
behind_flags n rest = rw (length-put_uint32 n) at (slice_from-append (put_uint32 n) rest)

read_varint-encoding :
    (e : Error) (n : ℕ) (rest : List ℕ)
    → IsU64 n
    → read_varint e (encoding n ++ rest) ≡ ok (n, rest)
unfolding read_varint
read_varint-encoding e n rest h =
    ground (arith, uvarint-uvarint_bytes n rest, slice_from-append (encoding n) rest)

-- The frame that the payload decoders start from.
abbrev pub headed : Frame → Frame → List ℕ → Frame
headed g f payload = record g {
  len = length (body_wire f payload);
  type = f.type;
  flags = f.flags;
  stream_id = f.stream_id;
  frame_id = f.frame_id;
}

read_body-wire :
    (g f : Frame) (payload : List ℕ)
    → IsWritable f
    → read_body g (put_uint32 f.flags ++ (encoding f.stream_id ++ (encoding f.frame_id ++ payload)))
      ≡ read_payload
          (record g { flags = f.flags; stream_id = f.stream_id; frame_id = f.frame_id })
          payload
unfolding read_body
read_body-wire g f payload w =
    let ids : List ℕ = encoding f.stream_id ++ (encoding f.frame_id ++ payload) in
    let flags : uint32_at (put_uint32 f.flags) ≡ f.flags =
      rw append-nil at (uint32_at-put_uint32 f.flags [] w.flags_word) in
    ground (
      arith,
      flags_at_four f.flags ids,
      behind_flags f.flags ids,
      flags,
      read_varint-encoding truncated_stream_id f.stream_id (encoding f.frame_id ++ payload)
          w.stream_word,
      read_varint-encoding truncated_frame_id f.frame_id payload w.frame_word,
    )

header_wire :
    (n t : ℕ) (rest : List ℕ) (ending : Error)
    → read_full 5 (record { input = put_uint32 n ++ (t ∷ rest); ending = ending })
      ≡ ok (put_uint32 n ++ (t ∷ []), record { input = rest; ending = ending })
unfolding read_full put_uint32
header_wire n t rest ending = ground arith

read_full-append :
    (bytes rest : List ℕ) (ending : Error)
    → read_full (length bytes) (record { input = bytes ++ rest; ending = ending })
      ≡ ok (bytes, record { input = rest; ending = ending })
unfolding read_full
read_full-append bytes rest ending =
    let room : leb (length bytes) (length (bytes ++ rest)) ≡ true =
      le→leb (length bytes) (length (bytes ++ rest)) (omega (arith, length-append bytes rest)) in
    rw (room, take-append bytes rest, drop-append bytes rest)

type_of_header-wire : (n t : ℕ) → type_of_header (put_uint32 n ++ (t ∷ [])) ≡ t
unfolding type_of_header put_uint32
type_of_header-wire n t = refl

check_header-ok :
    (limit : ℕ) (accept : Option (List ℕ)) (len type : ℕ)
    → is_known_type type ≡ true
    → accepts_type accept type ≡ true
    → 5 ≤ len
    → len ≤ limit
    → check_header limit accept len type ≡ ok tt
unfolding check_header
check_header-ok limit accept len type known allowed lower upper =
    rw (known, allowed, le→ltb len 5 lower, le→ltb limit len upper)

abbrev tail_wire : Frame → List ℕ → List ℕ
tail_wire f payload =
    put_uint32 f.flags ++ (encoding f.stream_id ++ (encoding f.frame_id ++ payload))

tail_length : (f : Frame) (payload : List ℕ) → 4 ≤ length (tail_wire f payload)
tail_length f payload = omega (
  arith,
  length-put_uint32 f.flags,
  length-append (put_uint32 f.flags) (encoding f.stream_id ++ (encoding f.frame_id ++ payload)),
)

framed-append :
    (f : Frame) (payload rest : List ℕ)
    → framed (body_wire f payload) ++ rest
      ≡ put_uint32 (frame_len (body_wire f payload)) ++ (f.type ∷ (tail_wire f payload ++ rest))
framed-append f payload rest =
    append_assoc (put_uint32 (frame_len (body_wire f payload))) (body_wire f payload) rest

-- Reading the bytes of a frame whose type is accepted and whose length is within the limit comes
-- down to decoding its payload, and leaves what follows the frame in the source.
pub read_limit-framed :
    (g f : Frame) (payload rest : List ℕ) (ending : Error) (limit : ℕ) (accept : Option (List ℕ))
    → IsWritable f
    → is_known_type f.type ≡ true
    → accepts_type accept f.type ≡ true
    → length (body_wire f payload) ≤ min limit max_frame_size
    → read_limit g
        (record { input = framed (body_wire f payload) ++ rest; ending = ending })
        limit
        accept
      ≡ (read_payload (headed g f payload) payload >>= λ h.
          ok (h, record { input = rest; ending = ending }))
unfolding read_limit map_err
read_limit-framed g f payload rest ending limit accept w known allowed small =
    let tail : List ℕ = tail_wire f payload in
    let len : ℕ = length (body_wire f payload) in
    let word : frame_len (body_wire f payload) ≡ len = omega arith in
    let size : len - 1 ≡ length tail = omega arith in
    rw (framed-append f payload rest, word)
      (ground (
        arith,
        header_wire len f.type (tail ++ rest) ending,
        uint32_at-put_uint32 len (f.type ∷ []) (omega arith),
        type_of_header-wire len f.type,
        check_header-ok (min limit max_frame_size) accept len f.type known allowed
            (omega (arith, tail_length f payload)) small,
        size,
        read_full-append tail rest ending,
        read_body-wire (record g { len = len; type = f.type }) f payload w,
      ))

-- `Encode` hands its writer the whole frame in one write, and `Len` keeps its length.
pub encode-writer :
    (dest : Writer) (f : Frame) (payload : List ℕ)
    → IsWritable f
    → encode_payload f ≡ ok payload
    → length (body_wire f payload) < 2 ^ 32
    → encode dest f ≡ (
      record f { len = length (body_wire f payload) },
      after_write (length (framed (body_wire f payload))) (dest (framed (body_wire f payload))),
    )
unfolding encode
encode-writer dest f payload w e small = ground (arith, encode_body-wire f payload w e)

-- `Encode` into a buffer: one write of the whole frame, whose length `Len` keeps.
pub encode-buffer :
    (f : Frame) (payload : List ℕ)
    → IsWritable f
    → encode_payload f ≡ ok payload
    → length (body_wire f payload) < 2 ^ 32
    → encode buffer f ≡ (
      record f { len = length (body_wire f payload) },
      wrote (length (framed (body_wire f payload))),
    )
unfolding after_write buffer
encode-buffer f payload w e small =
    encode-writer buffer f payload w e small
    ∙ ground (arith, ==-refl (length (framed (body_wire f payload))))
