-- ===== src/Frame/Encode.antt =====
-- frame/encode.go: `Encode` assembles a frame in one buffer and writes it with one call.
use spop.Base.{
  ℕ, ◌/◌, ◌%◌, ◌^◌, not, ◌&&◌, ◌||◌, List, [], ◌∷◌, ◌++◌, Option, none, some, Result, ok, err,
  fault, Fault, Error, ◌>>=◌, ◌>>◌, refuse_if, abort_without_fin, messages_not_handled,
  unexpected_frame_type, ltb, ◌==◌, if◌then◌else◌, length,
}
use spop.Varint.{uvarint_bytes}
use spop.Action.{Action, marshal}
use spop.Kv.{kv_bytes}
use spop.Frame.{
  Frame, is_fin, is_abort, type_haproxy_hello, type_haproxy_disconnect, type_notify,
  type_agent_hello, type_agent_disconnect, type_agent_ack,
}

-- `binary.BigEndian.PutUint32`
unfoldable pub put_uint32 : ℕ → List ℕ
put_uint32 n = (n / 2 ^ 24 % 256) ∷ (n / 2 ^ 16 % 256) ∷ (n / 2 ^ 8 % 256) ∷ (n % 256) ∷ []

-- The loop over `f.Actions`.
unfoldable pub marshal_all : List Action → List ℕ → Result (List ℕ)
marshal_all [] payload = ok payload
marshal_all (act ∷ actions) payload = do
  payload' ← marshal act payload
  marshal_all actions payload'

-- The switch over `f.Type`.
unfoldable pub encode_payload : Frame → Result (List ℕ)
unfolding marshal_all
encode_payload f =
    if f.type == type_agent_hello
      || f.type == type_agent_disconnect
      || f.type == type_haproxy_hello
      || f.type == type_haproxy_disconnect
    then kv_bytes f.kv
    else if f.type == type_agent_ack
    then marshal_all f.actions []
    else if f.type == type_notify
    then (if ltb 0 (length f.messages) then err messages_not_handled else ok [])
    else err unexpected_frame_type

-- What stands in the buffer behind the FRAME-LENGTH prefix.
unfoldable pub encode_body : Frame → Result (List ℕ)
unfolding encode_payload put_uint32 is_abort is_fin
encode_body f = do
  refuse_if (is_abort f && not (is_fin f)) abort_without_fin
  stream_id ← uvarint_bytes f.stream_id
  frame_id ← uvarint_bytes f.frame_id
  payload ← encode_payload f
  ok (f.type ∷ (put_uint32 f.flags ++ (stream_id ++ (frame_id ++ payload))))

-- The whole buffer: `f.Len` is a uint32.
abbrev pub frame_len : List ℕ → ℕ
frame_len body = length body % 2 ^ 32

abbrev pub framed : List ℕ → List ℕ
framed body = put_uint32 (frame_len body) ++ body

-- A writer answers how many bytes it took, and an error if it failed.
abbrev pub Writer : Type 0
Writer = List ℕ → ℕ × Option Error

-- `refused e`: (0, e) before anything was written. `wrote n`: (n, nil). `broken n e`: n bytes
-- were taken, and the error wraps the writer's own, if it gave one.
pub data Encoded : Type 0 where
  refused : Error → Encoded
  wrote : ℕ → Encoded
  broken : ℕ → Option Error → Encoded
  faulted : Fault → Encoded

unfoldable pub after_write : ℕ → ℕ × Option Error → Encoded
after_write size (n, some e) = broken n (some e)
after_write size (n, none) = if n == size then wrote n else broken n none

-- `Encode`: the frame after the call, whose `Len` is set, and the result.
unfoldable pub encode : Writer → Frame → Frame × Encoded
unfolding after_write
encode dest f = elim (encode_body f) [
  | ok body ↦
      (record f { len = frame_len body }, after_write (length (framed body)) (dest (framed body)))
  | err e ↦ (f, refused e)
  | fault x ↦ (f, faulted x)
]

-- A `bytes.Buffer` takes whatever it is given, and never fails.
unfoldable pub buffer : Writer
buffer bytes = (length bytes, none)

-- The bytes that `Encode` leaves in an empty `bytes.Buffer`.
unfoldable pub to_buffer : Frame → Result (List ℕ)
to_buffer f = encode_body f >>= λ body. ok (framed body)
