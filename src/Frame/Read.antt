-- ===== src/Frame/Read.antt =====
-- frame/read.go: `Read` and `ReadLimit`.
use spop.Base.{
  ℕ, ◌+◌, ◌-◌, ◌*◌, ◌^◌, Bool, true, false, not, ◌||◌, List, [], ◌∷◌, Option, none, some, Result,
  ok, err, fault, Error, ◌>>=◌, ◌>>◌, refuse_if, unexpected_frame_type,
  unexpected_frame_type_from_peer, invalid_frame_length, frame_too_big, end_of_file,
  unexpected_end_of_file, truncated_stream_id, truncated_frame_id, healthcheck_type,
  max_frame_size_type, engine_id_type, unexpected_frame_length, read_error, codes, ltb, leb, ◌==◌,
  if◌then◌else◌, length, take, drop, slice_to, slice_from, min,
}
use spop.Varint.{uvarint}
use spop.TypedData.{Value, bool, uint32, string}
use spop.Action
use spop.Kv.{get, unmarshal}
use spop.Message
use spop.Frame.{
  Frame, max_frame_size, min_frame_len, type_haproxy_hello, type_haproxy_disconnect, type_notify,
  type_agent_hello, type_agent_disconnect, type_agent_ack,
}

-- A reader: the bytes that will still arrive, and the error that it answers behind them.
pub record Source : Type 0 where
  pub input : List ℕ
  pub ending : Error

-- The error of `io.ReadFull` on input that ends early: EOF behind a first byte is
-- ErrUnexpectedEOF, any other error is passed on.
unfoldable pub short_read : Source → Error
short_read src = elim src.ending [
  | end_of_file ↦ if length src.input == 0 then end_of_file else unexpected_end_of_file
  | e ↦ e
]

-- `io.ReadFull` of n bytes.
unfoldable pub read_full : ℕ → Source → Result (List ℕ × Source)
unfolding short_read
read_full n src =
    if leb n (length src.input)
    then ok (take n src.input, record src { input = drop n src.input })
    else err (short_read src)

-- The bare EOF before the first byte of a frame is passed on; every other error is wrapped.
unfoldable pub wrap_header : Error → Error
wrap_header end_of_file = end_of_file
wrap_header e = read_error e

unfoldable pub map_err {ℓ} : {A : Type ℓ} → (Error → Error) → Result A → Result A
map_err f (ok a) = ok a
map_err f (err e) = err (f e)
map_err f (fault x) = fault x

-- `binary.BigEndian.Uint32` of the first four bytes.
unfoldable pub uint32_at : List ℕ → ℕ
uint32_at (a ∷ b ∷ c ∷ d ∷ rest) = a * 2 ^ 24 + b * 2 ^ 16 + c * 2 ^ 8 + d
uint32_at _ = 0

-- The types that the package understands.
unfoldable pub is_known_type : ℕ → Bool
is_known_type t =
    t == type_haproxy_hello
    || t == type_haproxy_disconnect
    || t == type_notify
    || t == type_agent_hello
    || t == type_agent_disconnect
    || t == type_agent_ack

-- The loop of `acceptsType`, and the function; `none` is a nil `accept`.
unfoldable pub allows : List ℕ → ℕ → Bool
allows [] t = false
allows (allowed ∷ accept) t = allowed == t || allows accept t

unfoldable pub accepts_type : Option (List ℕ) → ℕ → Bool
unfolding allows
accepts_type none t = true
accepts_type (some accept) t = allows accept t

-- The three items of a HAPROXY-HELLO that the frame keeps, each of which must have its type.
unfoldable pub keep_healthcheck : Frame → Option Value → Result Frame
keep_healthcheck f none = ok f
keep_healthcheck f (some (bool b)) = ok (record f { healthcheck = b })
keep_healthcheck f (some _) = err healthcheck_type

unfoldable pub keep_max_frame_size : Frame → Option Value → Result Frame
keep_max_frame_size f none = ok f
keep_max_frame_size f (some (uint32 n)) = ok (record f { frame_size = n })
keep_max_frame_size f (some _) = err max_frame_size_type

unfoldable pub keep_engine_id : Frame → Option Value → Result Frame
keep_engine_id f none = ok f
keep_engine_id f (some (string s)) = ok (record f { engine_id = s })
keep_engine_id f (some _) = err engine_id_type

unfoldable pub keep_hello_items : Frame → Result Frame
keep_hello_items f = do
  f₁ ← keep_healthcheck f (get f.kv (codes "healthcheck"))
  f₂ ← keep_max_frame_size f₁ (get f₁.kv (codes "max-frame-size"))
  keep_engine_id f₂ (get f₂.kv (codes "engine-id"))

-- The calls of the payload decoders; an error ends the read.
unfoldable pub read_kv : Frame → List ℕ → Result Frame
read_kv f buf = do
  let unmarshalled = unmarshal f.kv buf
  unmarshalled.1
  ok (record f { kv = unmarshalled.0 })

unfoldable pub read_messages : Frame → List ℕ → Result Frame
read_messages f buf = do
  let decoded = Message.decode f.messages buf
  decoded.1
  ok (record f { messages = decoded.0 })

unfoldable pub read_actions : Frame → List ℕ → Result Frame
read_actions f buf = do actions ← Action.unmarshal buf; ok (record f { actions = actions })

unfoldable pub read_hello : Frame → List ℕ → Result Frame
read_hello f buf = do f' ← read_kv f buf; keep_hello_items f'

-- The switch over the type at the end of `ReadLimit`.
unfoldable pub read_payload : Frame → List ℕ → Result Frame
read_payload f buf =
    if f.type == type_haproxy_hello || f.type == type_haproxy_disconnect
    then read_hello f buf
    else if f.type == type_agent_hello || f.type == type_agent_disconnect
    then read_kv f buf
    else if f.type == type_notify
    then read_messages f buf
    else if f.type == type_agent_ack
    then read_actions f buf
    else err unexpected_frame_type

unfoldable pub read_varint : Error → List ℕ → Result (ℕ × List ℕ)
read_varint truncated buf = elim (uvarint buf) [
  | none ↦ err truncated
  | some (i, n) ↦ slice_from buf n >>= λ rest. ok (i, rest)
]

-- `ReadLimit` behind the FRAME-TYPE byte: FLAGS, STREAM-ID, FRAME-ID and the payload.
unfoldable pub read_body : Frame → List ℕ → Result Frame
read_body f buf = do
  flags ← slice_to buf 4
  buf₁ ← slice_from buf 4
  (stream_id, buf₂) ← read_varint truncated_stream_id buf₁
  (frame_id, buf₃) ← read_varint truncated_frame_id buf₂
  read_payload (record f { flags = uint32_at flags; stream_id = stream_id; frame_id = frame_id })
      buf₃

-- The header's checks, in the order of the code: type, direction, length, limit.
unfoldable pub check_header : ℕ → Option (List ℕ) → ℕ → ℕ → Result (Unit {0})
unfolding accepts_type is_known_type
check_header limit accept len type = do
  refuse_if (not (is_known_type type)) unexpected_frame_type
  refuse_if (not (accepts_type accept type)) unexpected_frame_type_from_peer
  refuse_if (ltb len min_frame_len) invalid_frame_length
  refuse_if (ltb limit len) (frame_too_big len limit)

-- The first five bytes: FRAME-LENGTH and FRAME-TYPE.
unfoldable pub type_of_header : List ℕ → ℕ
type_of_header (a ∷ b ∷ c ∷ d ∷ type ∷ rest) = type
type_of_header _ = 0

-- `ReadLimit`: the frame and what is left of the source, or the error. After an error every
-- caller releases the frame, so what it holds then is left out.
unfoldable pub read_limit : Frame → Source → ℕ → Option (List ℕ) → Result (Frame × Source)
read_limit f src limit accept = do
  (header, src₁) ← map_err wrap_header (read_full 5 src)
  let len = uint32_at header
  let type = type_of_header header
  check_header (min limit max_frame_size) accept len type
  (buf, src₂) ← map_err read_error (read_full (len - 1) src₁)
  refuse_if (not (length buf == len - 1)) unexpected_frame_length
  f' ← read_body (record f { len = len; type = type }) buf
  ok (f', src₂)

-- `Read`
unfoldable pub read : Frame → Source → Result (Frame × Source)
unfolding read_limit
read f src = read_limit f src max_frame_size none
