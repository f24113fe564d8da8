-- ===== src/Worker/Sending.antt =====
-- What the worker's operations hand to the connection, by the types of the frames.
use spop.Base.{
  ℕ, ◌≡◌, refl, subst, ap, ◌∙◌, Bool, true, false, List, ◌∷◌, ◌++◌, map, Option, none, some, Result,
  ok, err, fault, Fault, Error, ◌⊎◌, inl, inr, sym, Bool-cases, ◌>>=◌, arith, if◌then◌else◌,
  after_disconnect, ltb, cannot_encode, frame_too_big, not, ◌&&◌, refuse_if, abort_without_fin,
}
use spop.Transport.{write_frame}
use spop.Transport.Calls.{writes, write_frame-Sends}
use spop.Varint.{uvarint_bytes}
use spop.Frame.{Frame, is_abort, is_fin}
use spop.Frame.Encode.{to_buffer, put_uint32, encode_payload, encode_body, frame_len, framed}
use spop.Worker.{
  Setting, Worker, as_result, send_bytes, send_frame, write_ack, frame_limit, length_field,
}

-- FRAME-TYPE of the bytes of a frame.
abbrev pub type_at : List ℕ → ℕ
type_at (a ∷ b ∷ c ∷ d ∷ type ∷ rest) = type
type_at _ = 0

-- The types of the frames handed to the connection, the latest first.
abbrev pub sent_types : Worker → List ℕ
sent_types w = map type_at (writes w.conn.calls)

-- Any value of the run has the property.
pub data Yields {ℓ κ} {A : Type ℓ} (P : A → Type κ) : Result A → Type (ℓ ⊔ κ) where
  yields : {a : A} → P a → Yields P (ok a)
  refuses : {e : Error} → Yields P (err e)
  faults : {x : Fault} → Yields P (fault x)

module _ {ℓ κ} {A : Type ℓ} {P : A → Type κ} where
  Yields-bind {ℓ'} :
      {B : Type ℓ'} (r : Result B) {f : B → Result A}
      → ((b : B) → Yields P (f b))
      → Yields P (r >>= f)
  Yields-bind (ok b) k = k b
  Yields-bind (err e) k = refuses
  Yields-bind (fault x) k = faults

  pub Yields-ok : {r : Result A} {a : A} → Yields P r → r ≡ ok a → P a
  Yields-ok (yields h) e = subst P (cc) h
  Yields-ok refuses e = cc
  Yields-ok faults e = cc

  Yields-map {ℓ'} :
      {B : Type ℓ'} {r : Result B} (g : B → A)
      → Yields (λ b. P (g b)) r
      → Yields P (r >>= λ b. ok (g b))
  Yields-map g (yields h) = yields h
  Yields-map g refuses = refuses
  Yields-map g faults = faults

type_at-framed : (n t : ℕ) (body : List ℕ) → type_at (put_uint32 n ++ (t ∷ body)) ≡ t
unfolding put_uint32
type_at-framed n t body = refl

encode_body-Yields : (f : Frame) → Yields (λ body. type_at (framed body) ≡ f.type) (encode_body f)
unfolding encode_body
encode_body-Yields f = Yields-bind (refuse_if (is_abort f && not (is_fin f)) abort_without_fin) λ _.
    Yields-bind (uvarint_bytes f.stream_id) λ stream_id.
      Yields-bind (uvarint_bytes f.frame_id) λ frame_id. Yields-bind (encode_payload f) λ payload.
        let rest : List ℕ = put_uint32 f.flags ++ (stream_id ++ (frame_id ++ payload)) in
        yields {a = f.type ∷ rest} (type_at-framed (frame_len (f.type ∷ rest)) f.type rest)

pub to_buffer-Yields : (f : Frame) → Yields (λ bytes. type_at bytes ≡ f.type) (to_buffer f)
unfolding to_buffer
to_buffer-Yields f = Yields-map framed (encode_body-Yields f)

-- A frame of the type went to the connection or did not, and certainly did if all went well;
-- nothing but the connection has changed.
pub record Sent (type : ℕ) (w : Worker) (out : Worker × Result (Unit {0})) : Type 0 where
  pub grows : (sent_types out.0 ≡ sent_types w) ⊎ (sent_types out.0 ≡ type ∷ sent_types w)
  pub delivers : out.1 ≡ ok tt → sent_types out.0 ≡ type ∷ sent_types w
  pub same : out.0 ≡ record w { conn = out.0.conn; panicked = out.0.panicked }

send_bytes-Sent :
    (s : Setting) (bytes : List ℕ) (type : ℕ) (w : Worker)
    → type_at bytes ≡ type
    → Sent type w (send_bytes s bytes w)
unfolding send_bytes as_result
send_bytes-Sent s bytes type w e =
    let sends = write_frame-Sends s.net (s.clock w.conn.calls) bytes w.conn in
    let added = write_frame s.net (s.clock w.conn.calls) bytes w.conn in
    record {
      grows = elim sends.grows [
        | inl p ↦ inl (ap (map type_at) p)
        | inr p ↦ inr (ap (map type_at) p ∙ ap (λ t. t ∷ sent_types w) e)
      ];
      delivers = λ r.
          ap (map type_at) (sends.delivers (succeeded added.1 r)).0 ∙ ap (λ t. t ∷ sent_types w) e;
      same = refl;
    }
  where
    succeeded : (e : Option Error) → as_result e ≡ ok tt → e ≡ none
    succeeded none p = refl
    succeeded (some x) p = cc

nothing-Sent : (type : ℕ) (w : Worker) (e : Error) → Sent type w (w, err e)
nothing-Sent type w e = record { grows = inl refl; delivers = λ p. cc; same = refl }

pub send_frame-Sent : (s : Setting) (f : Frame) (w : Worker) → Sent f.type w (send_frame s f w)
unfolding send_frame
send_frame-Sent s f w = go (to_buffer f) (to_buffer-Yields f)
  where
    outcome : Result (List ℕ) → Worker × Result (Unit {0})
    outcome (ok bytes) = send_bytes s bytes w
    outcome (err e) = (w, err e)
    outcome (fault x) = (record w { panicked = true }, fault x)

    go :
        (r : Result (List ℕ))
        → Yields (λ bytes. type_at bytes ≡ f.type) r
        → Sent f.type w (outcome r)
    go (ok bytes) (yields e) = send_bytes-Sent s bytes f.type w e
    go (err e) refuses = nothing-Sent f.type w e
    go (fault x) faults = record { grows = inl refl; delivers = λ p. cc; same = refl }

pub write_ack-Sent :
    (s : Setting) (f : Frame) (w : Worker)
    → w.goodbye_sent ≡ false
    → Sent f.type w (write_ack s f w)
unfolding write_ack
write_ack-Sent s f w live = go w.goodbye_sent live
  where
    sent : Result (List ℕ) → Worker × Result (Unit {0})
    sent (ok bytes) =
        if ltb (frame_limit w) (length_field bytes)
        then (w, err (frame_too_big (length_field bytes) (frame_limit w)))
        else send_bytes s bytes w
    sent (err e) = (w, err (cannot_encode e))
    sent (fault x) = (record w { panicked = true }, fault x)

    within :
        (b : Bool) (bytes : List ℕ)
        → type_at bytes ≡ f.type
        → Sent f.type w (
            if b
            then (w, err (frame_too_big (length_field bytes) (frame_limit w)))
            else send_bytes s bytes w)
    within true bytes e = nothing-Sent f.type w (frame_too_big (length_field bytes) (frame_limit w))
    within false bytes e = send_bytes-Sent s bytes f.type w e

    try :
        (r : Result (List ℕ)) → Yields (λ bytes. type_at bytes ≡ f.type) r → Sent f.type w (sent r)
    try (ok bytes) (yields e) = within (ltb (frame_limit w) (length_field bytes)) bytes e
    try (err e) refuses = nothing-Sent f.type w (cannot_encode e)
    try (fault x) faults = record { grows = inl refl; delivers = λ p. cc; same = refl }

    go :
        (b : Bool)
        → b ≡ false
        → Sent f.type w (if b then (w, err after_disconnect) else sent (to_buffer f))
    go true e = cc
    go false e = try (to_buffer f) (to_buffer-Yields f)

pub write_ack_after :
    (s : Setting) (f : Frame) (w : Worker)
    → w.goodbye_sent ≡ true
    → write_ack s f w ≡ (w, err after_disconnect)
unfolding write_ack
write_ack_after s f w e = ground arith

-- Sent or held back, an ACK changes nothing but the connection.
pub write_ack_same :
    (s : Setting) (f : Frame) (w : Worker)
    → (write_ack s f w).0
      ≡ record w { conn = (write_ack s f w).0.conn; panicked = (write_ack s f w).0.panicked }
write_ack_same s f w = elim (Bool-cases w.goodbye_sent) [
  | inl parted ↦
      subst (λ out. out.0 ≡ record w { conn = out.0.conn; panicked = out.0.panicked })
        (sym (write_ack_after s f w parted)) refl
  | inr live ↦ (write_ack-Sent s f w live).same
]
