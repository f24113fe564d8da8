-- ===== src/Client/Wire.antt =====
-- The frames of the client and of the worker, and what the other side reads of them.
use spop.Base.{
  ℕ, ◌≤◌, ◌<◌, ◌≡◌, refl, List, [], ◌∷◌, ◌++◌, some, ok, Error, arith, length, min, codes, ◌+◌, ◌*◌,
  IsU32, true, eq_bytes, slice_to, slice_from,
}
use spop.Varint.{uvarint, uvarint_bytes}
use spop.TypedData.{encode, decode}
use spop.Message
use spop.Kv.{add, get, kv_bytes, unmarshal}
use spop.Frame.{Frame, new_frame, is_abort, is_fin, from_haproxy, max_frame_size}
use spop.Frame.Encode.{encode_payload, to_buffer}
use spop.Frame.Read.{
  read_limit, read_payload, read_hello, read_kv, read_messages, accepts_type, is_known_type,
  keep_hello_items, keep_healthcheck, keep_max_frame_size, keep_engine_id,
}
use spop.Frame.RoundTrip.{IsWritable, body_wire, headed, read_limit-framed, length-body_wire-le}
use spop.Worker.Wire.{text_item, number_item}
use spop.Client.{client_hello, client_notify, client_disconnect}
use spop.Client.Sending.{wire_of, to_buffer-wire}

-- One side encodes f as the bytes, and the other side reads g from them and no more.
pub record Crosses (f g : Frame) (bytes : List ℕ) (limit : ℕ) (accept : List ℕ) : Type 0 where
  pub written : to_buffer f ≡ ok bytes
  pub taken :
      (rest : List ℕ) (ending : Error)
      → read_limit new_frame (record { input = bytes ++ rest; ending = ending }) limit (some accept)
        ≡ ok (g, record { input = rest; ending = ending })

pub crosses :
    (f g : Frame) (payload : List ℕ) (limit : ℕ) (accept : List ℕ)
    → IsWritable f
    → is_known_type f.type ≡ true
    → accepts_type (some accept) f.type ≡ true
    → length (body_wire f payload) ≤ min limit max_frame_size
    → encode_payload f ≡ ok payload
    → read_payload (headed new_frame f payload) payload ≡ ok g
    → Crosses f g (wire_of f payload) limit accept
crosses f g payload limit accept w known allowed small e d = record {
  written = to_buffer-wire f payload w e;
  taken = λ rest ending.
      rw
        (
          read_limit-framed new_frame f payload rest ending limit (some accept) w known allowed
              small,
          d,
        )
        refl;
}

abbrev hello_payload : List ℕ
hello_payload =
    (18 ∷ codes "supported-versions")
    ++ (8 ∷ 3 ∷ codes "2.0")
    ++ (14 ∷ codes "max-frame-size")
    ++ (3 ∷ 240 ∷ 241 ∷ 6 ∷ [])
    ++ (12 ∷ codes "capabilities")
    ++ (8 ∷ 0 ∷ [])

abbrev pub hello_received : Frame
hello_received = record (headed new_frame client_hello hello_payload) {
  kv =
      text_item (codes "supported-versions") (codes "2.0")
      ∷ number_item (codes "max-frame-size") (16 * 1024)
      ∷ text_item (codes "capabilities") []
      ∷ [];
  frame_size = 16 * 1024;
}

abbrev pub notify_received : Frame
notify_received = headed new_frame client_notify []

abbrev goodbye_payload : List ℕ
goodbye_payload =
    (11 ∷ codes "status-code") ++ (3 ∷ 0 ∷ []) ++ (7 ∷ codes "message") ++ (8 ∷ 6 ∷ codes "normal")

abbrev pub goodbye_received : Frame
goodbye_received = record (headed new_frame client_disconnect goodbye_payload) {
  kv = number_item (codes "status-code") 0 ∷ text_item (codes "message") (codes "normal") ∷ [];
}

abbrev pub hello_bytes : List ℕ
hello_bytes = wire_of client_hello hello_payload

abbrev pub notify_bytes : List ℕ
notify_bytes = wire_of client_notify []

abbrev pub goodbye_bytes : List ℕ
goodbye_bytes = wire_of client_disconnect goodbye_payload

fin-IsWritable :
    (f : Frame) → IsU32 f.flags → f.flags ≡ 1 → f.stream_id < 128 → f.frame_id < 128 → IsWritable f
unfolding is_abort is_fin
fin-IsWritable f h e s i = record {
  flags_word = omega arith;
  stream_word = omega arith;
  frame_word = omega arith;
  fin_with_abort = rw e refl;
}

fin-Crosses :
    (f g : Frame) (payload : List ℕ) (limit : ℕ) (accept : List ℕ)
    → f.flags ≡ 1
    → f.stream_id < 128
    → f.frame_id < 128
    → is_known_type f.type ≡ true
    → accepts_type (some accept) f.type ≡ true
    → 25 + length payload ≤ min limit max_frame_size
    → encode_payload f ≡ ok payload
    → read_payload (headed new_frame f payload) payload ≡ ok g
    → Crosses f g (wire_of f payload) limit accept
fin-Crosses f g payload limit accept e s i known allowed small =
    let w = fin-IsWritable f (omega (arith, e)) e s i in
    crosses f g payload limit accept w known allowed
      (omega (arith, length-body_wire-le f payload w))

hello_written : encode_payload client_hello ≡ ok hello_payload
unfolding encode_payload kv_bytes encode uvarint_bytes add
hello_written = refl

hello_read :
    read_payload (headed new_frame client_hello hello_payload) hello_payload ≡ ok hello_received
unfolding read_payload read_hello read_kv read_messages keep_hello_items keep_healthcheck
    keep_max_frame_size keep_engine_id slice_to slice_from uvarint get eq_bytes unmarshal decode
    Message.decode add
hello_read = refl

pub hello-Crosses :
    (limit : ℕ) → 256 ≤ limit → Crosses client_hello hello_received hello_bytes limit from_haproxy
hello-Crosses limit h =
    fin-Crosses client_hello hello_received hello_payload limit from_haproxy refl (omega arith)
      (omega arith) (unfold is_known_type in refl) (unfold accepts_type in refl) (omega arith)
      hello_written hello_read

notify_payload : encode_payload client_notify ≡ ok []
unfolding encode_payload kv_bytes encode uvarint_bytes add
notify_payload = refl

notify_read : read_payload (headed new_frame client_notify []) [] ≡ ok notify_received
unfolding read_payload read_hello read_kv read_messages keep_hello_items keep_healthcheck
    keep_max_frame_size keep_engine_id slice_to slice_from uvarint get eq_bytes unmarshal decode
    Message.decode add
notify_read = refl

pub notify-Crosses :
    (limit : ℕ)
    → 256 ≤ limit
    → Crosses client_notify notify_received notify_bytes limit from_haproxy
notify-Crosses limit h =
    fin-Crosses client_notify notify_received [] limit from_haproxy refl (omega arith) (omega arith)
      (unfold is_known_type in refl) (unfold accepts_type in refl) (omega arith) notify_payload
      notify_read

goodbye_written : encode_payload client_disconnect ≡ ok goodbye_payload
unfolding encode_payload kv_bytes encode uvarint_bytes add
goodbye_written = refl

goodbye_read :
    read_payload (headed new_frame client_disconnect goodbye_payload) goodbye_payload
    ≡ ok goodbye_received
unfolding read_payload read_hello read_kv read_messages keep_hello_items keep_healthcheck
    keep_max_frame_size keep_engine_id slice_to slice_from uvarint get eq_bytes unmarshal decode
    Message.decode add
goodbye_read = refl

pub goodbye-Crosses :
    (limit : ℕ)
    → 256 ≤ limit
    → Crosses client_disconnect goodbye_received goodbye_bytes limit from_haproxy
goodbye-Crosses limit h =
    fin-Crosses client_disconnect goodbye_received goodbye_payload limit from_haproxy refl
      (omega arith) (omega arith) (unfold is_known_type in refl) (unfold accepts_type in refl)
      (omega arith) goodbye_written goodbye_read
