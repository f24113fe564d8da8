-- ===== src/Client.antt =====
-- client/client.go: the other side of the protocol, for tests. Its connection is a bare net.Conn, as
-- in Transport, and what it reads is a source.
pub mod Sending
pub mod Wire
pub mod Replies
pub mod Turns
pub mod Steps
pub mod Session
pub mod Answers
pub mod Dialogue
mod Runs
use spop.Base.{
  ℕ, ◌*◌, ◌+◌, Bool, not, ◌||◌, List, [], ◌∷◌, Option, none, some, Result, ok, err, fault, Error,
  ◌>>=◌, ◌==◌, if◌then◌else◌, length, codes, size_mismatch, id_mismatch, unexpected_reply,
  reply_not_read,
}
use spop.TypedData.{string, uint32}
use spop.Kv.{new_kv, add}
use spop.Transport.{NetConn, Call, write}
use spop.Frame.{
  Frame, new_frame, max_frame_size, from_agent, type_haproxy_hello, type_haproxy_disconnect,
  type_notify, type_agent_hello, type_agent_disconnect, type_agent_ack,
}
use spop.Frame.Encode.{to_buffer}
use spop.Frame.Read.{Source, read_limit, map_err}

pub record Client : Type 0 where
  pub calls : List Call
  pub source : Source

-- `NewClient`
abbrev pub new_client : Source → Client
new_client src = record { calls = []; source = src }

-- The frames that the client sends.
abbrev pub client_hello : Frame
client_hello = record new_frame {
  type = type_haproxy_hello;
  kv =
      add
        (add (add new_kv (codes "supported-versions") (string (codes "2.0")))
          (codes "max-frame-size") (uint32 (16 * 1024)))
        (codes "capabilities") (string []);
}

abbrev pub client_notify : Frame
client_notify = record new_frame { type = type_notify; stream_id = 1; frame_id = 1 }

abbrev pub client_disconnect : Frame
client_disconnect = record new_frame {
  type = type_haproxy_disconnect;
  kv =
      add (add new_kv (codes "status-code") (uint32 0)) (codes "message") (string (codes "normal"));
}

unfoldable pub after_send : ℕ → ℕ × Option Error → Result (Unit {0})
after_send size (n, some e) = err e
after_send size (n, none) = if n == size then ok tt else err size_mismatch

-- `send`
unfoldable pub send : NetConn → Frame → Client → Client × Result (Unit {0})
unfolding after_send
send net f c = elim (to_buffer f) [
  | ok bytes ↦ (
    record c { calls = write bytes ∷ c.calls },
    after_send (length bytes) (net.on_write c.calls bytes),
  )
  | err e ↦ (c, err e)
  | fault x ↦ (c, fault x)
]

-- `ReadLimit` of a reply into a fresh frame.
unfoldable pub read_reply : Client → Client × Result Frame
read_reply c =
    elim (map_err reply_not_read (read_limit new_frame c.source max_frame_size (some from_agent))) [
      | ok (f, src) ↦ (record c { source = src }, ok f)
      | err e ↦ (c, err e)
      | fault x ↦ (c, fault x)
    ]

-- A frame is sent and the reply to it checked.
unfoldable pub exchange :
    NetConn → Frame → (Frame → Result (Unit {0})) → Client → Client × Result (Unit {0})
unfolding read_reply
exchange net f check c =
    let (sent, r) = send net f c in
    let (replied, reply) = read_reply sent in
    elim r [ ok _ ↦ (replied, reply >>= check) | err e ↦ (sent, err e) | fault x ↦ (sent, fault x) ]

unfoldable pub check_hello : Frame → Result (Unit {0})
check_hello f =
    if f.type == type_agent_hello
    then (if not (f.frame_id == 0) || not (f.stream_id == 0) then err id_mismatch else ok tt)
    else err (unexpected_reply f.type)

unfoldable pub check_type : ℕ → Frame → Result (Unit {0})
check_type type f = if f.type == type then ok tt else err (unexpected_reply f.type)

-- `Init`, `Notify` and `Stop`
unfoldable pub init : NetConn → Client → Client × Result (Unit {0})
unfolding exchange check_hello
init net c = exchange net client_hello check_hello c

unfoldable pub notify : NetConn → Client → Client × Result (Unit {0})
unfolding exchange check_type
notify net c = exchange net client_notify (check_type type_agent_ack) c

unfoldable pub stop : NetConn → Client → Client × Result (Unit {0})
unfolding exchange check_type
stop net c = exchange net client_disconnect (check_type type_agent_disconnect) c
