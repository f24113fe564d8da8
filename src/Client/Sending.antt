-- ===== src/Client/Sending.antt =====
-- How a call of the client goes: its frame out, the reply in.
use spop.Base.{ℕ, ◌≡◌, refl, List, ◌∷◌, none, some, Result, ok, arith, length, ==-refl}
use spop.Transport.{NetConn, write}
use spop.Frame.{Frame, new_frame, max_frame_size, from_agent}
use spop.Frame.Encode.{encode_payload, framed, to_buffer}
use spop.Frame.Read.{Source, map_err, read_limit}
use spop.Frame.RoundTrip.{IsWritable, body_wire, encode_body-wire}
use spop.Client.{Client, after_send, send, read_reply, exchange}

-- The net.Conn takes every byte that it is given.
abbrev pub TakesAll : NetConn → Type 0
TakesAll net = (calls : List _) (bytes : List ℕ) → net.on_write calls bytes ≡ (length bytes, none)

-- The bytes of a frame with the payload.
abbrev pub wire_of : Frame → List ℕ → List ℕ
wire_of f payload = framed (body_wire f payload)

pub to_buffer-wire :
    (f : Frame) (payload : List ℕ)
    → IsWritable f
    → encode_payload f ≡ ok payload
    → to_buffer f ≡ ok (wire_of f payload)
unfolding to_buffer
to_buffer-wire f payload w e = rw (encode_body-wire f payload w e) refl

send-taken :
    (net : NetConn) (f : Frame) (bytes : List ℕ) (c : Client)
    → TakesAll net
    → to_buffer f ≡ ok bytes
    → send net f c ≡ (record c { calls = write bytes ∷ c.calls }, ok tt)
unfolding send after_send
send-taken net f bytes c takes b = ground (arith, b, takes c.calls bytes, ==-refl (length bytes))

read_reply-read :
    (g : Frame) (src : Source) (c : Client)
    → read_limit new_frame c.source max_frame_size (some from_agent) ≡ ok (g, src)
    → read_reply c ≡ (record c { source = src }, ok g)
unfolding read_reply map_err
read_reply-read g src c r = ground (arith, r)

-- A frame that can be written is written whole, and a reply that passes the check ends the call.
pub exchange-answered :
    (net : NetConn) (f g : Frame) (check : Frame → Result (Unit {0})) (bytes : List ℕ)
    (src : Source) (c : Client)
    → TakesAll net
    → to_buffer f ≡ ok bytes
    → read_limit new_frame c.source max_frame_size (some from_agent) ≡ ok (g, src)
    → check g ≡ ok tt
    → exchange net f check c ≡ (record { calls = write bytes ∷ c.calls; source = src }, ok tt)
unfolding exchange
exchange-answered net f g check bytes src c takes b r k = ground (
  arith,
  send-taken net f bytes c takes b,
  read_reply-read g src (record c { calls = write bytes ∷ c.calls }) r,
  k,
)
