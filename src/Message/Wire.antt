-- ===== src/Message/Wire.antt =====
-- The bytes of a LIST-OF-MESSAGES as HAProxy writes them, and what `Decode` makes of them.
use spop.Base.{
  ℕ, zero, suc, ◌≤◌, ◌<◌, ◌≡◌, refl, ◌∙◌, false, List, [], ◌∷◌, ◌++◌, map, ok, ltb, le→ltb, length,
  length-append, append_assoc, append-nil, All, arith, slice_to-append, slice_from-append,
}
use spop.Varint.RoundTrip.{encoding, uvarint-uvarint_bytes}
use spop.TypedData.{IsString}
use spop.Kv.Wire.{kv_wire, SendableItem, received_item, unmarshal_nb-wire}
use spop.Action.Wire.{slice_one}
use spop.Message.{Message, Messages, read_message, decode_loop, decode}

-- A message whose number of arguments fits the NB-ARGS byte.
pub record IsSendable (m : Message) : Type 0 where
  pub is_name : IsString m.name
  pub are_items : All SendableItem m.kv
  pub nb_args : length m.kv < 256

-- MESSAGE-NAME, NB-ARGS and the KV-LIST.
abbrev pub message_wire : Message → List ℕ
message_wire m = encoding (length m.name) ++ (m.name ++ (length m.kv ∷ kv_wire m.kv))

abbrev pub messages_wire : Messages → List ℕ
messages_wire [] = []
messages_wire (m ∷ messages) = message_wire m ++ messages_wire messages

abbrev pub received_message : Message → Message
received_message m = record m { kv = map received_item m.kv }

read_message-wire :
    (m : Message) (rest : List ℕ)
    → IsSendable m
    → read_message (message_wire m ++ rest) ≡ ok (received_message m, rest)
unfolding read_message
read_message-wire m rest h =
    let args : List ℕ = kv_wire m.kv ++ rest in
    let tail : List ℕ = length m.kv ∷ args in
    let fits : ltb (length (m.name ++ tail)) (length m.name) ≡ false =
      le→ltb (length (m.name ++ tail)) (length m.name) (omega (arith, length-append m.name tail)) in
    rw
      (
        append_assoc (encoding (length m.name)) (m.name ++ (length m.kv ∷ kv_wire m.kv)) rest,
        append_assoc m.name (length m.kv ∷ kv_wire m.kv) rest,
      )
      (ground (
        arith,
        uvarint-uvarint_bytes (length m.name) (m.name ++ tail) (omega (arith, h.is_name.1)),
        slice_from-append (encoding (length m.name)) (m.name ++ tail),
        fits,
        slice_to-append m.name tail,
        slice_from-append m.name tail,
        slice_one (length m.kv) args,
        unmarshal_nb-wire m.kv rest [] h.are_items,
        slice_from-append (kv_wire m.kv) rest,
      ))

decode_loop_step :
    (fuel : ℕ) (buf : List ℕ) (messages : Messages) {m : Message} {rest : List ℕ}
    → 0 < length buf
    → read_message buf ≡ ok (m, rest)
    → decode_loop (suc fuel) buf messages ≡ decode_loop fuel rest (messages ++ (m ∷ []))
unfolding decode_loop
decode_loop_step fuel [] messages h e = absurd (omega arith)
decode_loop_step fuel (b ∷ buf) messages h e = rw (e, decode_loop)

message_wire-pos : (m : Message) → 0 < length (message_wire m)
message_wire-pos m = omega (
  arith,
  length-append (encoding (length m.name)) (m.name ++ (length m.kv ∷ kv_wire m.kv)),
  length-append m.name (length m.kv ∷ kv_wire m.kv),
)

decode_loop-wire :
    (sent : Messages) (fuel : ℕ) (messages : Messages)
    → length (messages_wire sent) ≤ fuel
    → All IsSendable sent
    → decode_loop fuel (messages_wire sent) messages
      ≡ (messages ++ map received_message sent, ok tt)
decode_loop-wire [] fuel messages hf h = rw append-nil (unfold decode_loop in refl)
decode_loop-wire (m ∷ sent) zero messages hf h =
    absurd (omega (arith, length-append (message_wire m) (messages_wire sent), message_wire-pos m))
decode_loop-wire (m ∷ sent) (suc fuel) messages hf (hm, h) =
    let len = length-append (message_wire m) (messages_wire sent) in
    let pos = message_wire-pos m in
    decode_loop_step fuel (message_wire m ++ messages_wire sent) messages (omega arith)
      (read_message-wire m (messages_wire sent) hm)
    ∙ decode_loop-wire sent fuel (messages ++ (received_message m ∷ [])) (omega arith) h
    ∙ rw append_assoc

-- `Decode` of the LIST-OF-MESSAGES that stands for some messages adds exactly these to the list,
-- in order, their arguments with the values that TYPED-DATA gives back, and reports no error.
pub decode-messages_wire :
    (sent messages : Messages)
    → All IsSendable sent
    → decode messages (messages_wire sent) ≡ (messages ++ map received_message sent, ok tt)
unfolding decode
decode-messages_wire sent messages h = decode_loop-wire sent _ messages (omega arith) h
