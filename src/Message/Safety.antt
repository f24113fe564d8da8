-- ===== src/Message/Safety.antt =====
-- `Messages.Decode` on any bytes.
use spop.Base.{
  ℕ, zero, suc, ◌-◌, ◌≤◌, ◌<◌, ◌≡◌, sym, ◌∙◌, List, [], ◌∷◌, ◌++◌, Result, Safely, returns, refuses,
  Safely-bind, Safely-cases, Safely-refuse_if, slice_to-Safely, slice_from-Safely, ltb, ltb→le,
  ◌==◌, length, length-drop, append_assoc, append-nil, All, Option-cases, inl, inr, arith,
}
use spop.Varint.{uvarint}
use spop.TypedData.{IsString}
use spop.TypedData.Safety.{uvarint_within}
use spop.Kv.{IsItem, new_kv}
use spop.Kv.Safety.{IsBuffer, IsBuffer-drop, IsBuffer-take, unmarshal_nb-UnmarshalsNb}
use spop.Action.Safety.{first-Safely, slice_one-Safely, pos_of_test}
use spop.Message.{Message, Messages, read_message, decode_loop, decode}

-- A decoded message: at most 255 arguments, for its NB-ARGS is one byte.
pub record IsMessage (m : Message) : Type 0 where
  pub is_name : IsString m.name
  pub are_items : All IsItem m.kv
  pub nb_args : length m.kv < 256

abbrev MessageWithin : List ℕ → Message × List ℕ → Type 0
MessageWithin buf (m, rest) = IsMessage m × IsBuffer rest × (length rest < length buf)

read_message-Safely : (buf : List ℕ) → IsBuffer buf → Safely (MessageWithin buf) (read_message buf)
unfolding read_message
read_message-Safely buf h = elim (Option-cases (uvarint buf)) [
  | inl e ↦ rw (e, read_message) refuses
  | inr ((len, n), e) ↦
      let (small, lo, hi) = uvarint_within buf len n h.0 e in
      rw (e, read_message)
        (Safely-bind (slice_from-Safely buf n hi) λ after_len p.
          Safely-refuse_if (ltb (length after_len) len) _ λ q.
            let room : len ≤ length after_len = ltb→le _ _ q in
            let fine : IsBuffer after_len = rw p (IsBuffer-drop n buf h) in
            let size : length after_len ≡ length buf - n = rw p (length-drop n buf) in
            Safely-bind (slice_to-Safely after_len len room) λ name r.
              Safely-bind (slice_from-Safely after_len len room) λ after_name s.
                let fine' : IsBuffer after_name = rw s (IsBuffer-drop len after_len fine) in
                let size' : length after_name ≡ length after_len - len =
                  rw s (length-drop len after_len) in
                Safely-refuse_if (length after_name == 0) _ λ t.
                  Safely-bind (first-Safely after_name fine' (pos_of_test _ t)) λ nb small_nb.
                    Safely-bind (slice_one-Safely after_name fine' (pos_of_test _ t))
                      λ after_nb (h₂, len₂).
                        let (new, split, items, count, safe) =
                          unmarshal_nb-UnmarshalsNb new_kv after_nb nb h₂ in
                        Safely-bind safe λ m k.
                          let bound : m ≤ length after_nb = omega (arith, k.2) in
                          Safely-bind (slice_from-Safely after_nb m bound) λ rest u. returns (
                            record {
                              is_name = rw r (IsBuffer-take len after_len fine);
                              are_items = rw split items;
                              nb_args = rw split (omega arith);
                            },
                            rw u (IsBuffer-drop m after_nb h₂),
                            rw u (omega (arith, length-drop m after_nb)),
                          ))
]

-- The call keeps the messages of the list, adds the ones it read, and ends without a fault.
abbrev pub Decodes : Messages → Messages × Result (Unit {0}) → Type 0
Decodes messages (messages', r) =
    (new : Messages) × (messages' ≡ messages ++ new) × All IsMessage new × Safely (λ _. Unit {0}) r

decode_loop-Decodes :
    (fuel : ℕ) (buf : List ℕ) (messages : Messages)
    → length buf ≤ fuel
    → IsBuffer buf
    → Decodes messages (decode_loop fuel buf messages)
unfolding decode_loop
decode_loop-Decodes fuel [] messages hf h = ([], sym (append-nil messages), tt, returns tt)
decode_loop-Decodes zero (b ∷ buf) messages hf h = absurd (omega arith)
decode_loop-Decodes (suc fuel) (b ∷ buf) messages hf h =
    elim (Safely-cases (read_message-Safely (b ∷ buf) h)) [
      | inr (x, e) ↦ rw (e, decode_loop) ([], sym (append-nil messages), tt, refuses)
      | inl ((m, rest), e, w) ↦
          let (new, split, fine, safe) =
            decode_loop-Decodes fuel rest (messages ++ (m ∷ [])) (omega arith) w.1 in
          rw (e, decode_loop)
            (m ∷ new, split ∙ append_assoc messages (m ∷ []) new, (w.0, fine), safe)
    ]

-- `Decode` on any bytes ends, without a fault: no index or slice bound passes the buffer.
-- Whether it fails or not, the list keeps its messages in front and gains only whole messages of
-- proper items, none with more than 255.
pub decode-Decodes :
    (messages : Messages) (buf : List ℕ) → IsBuffer buf → Decodes messages (decode messages buf)
unfolding decode
decode-Decodes messages buf h = decode_loop-Decodes (length buf) buf messages (omega arith) h
