-- ===== src/Pool/Served.antt =====
-- A NOTIFY is served on pooled objects as it is on new ones.
use spop.Base.{
  Error, subst, sym, ℕ, zero, suc, ◌≡◌, refl, ap, ◌∙◌, List, [], ◌∷◌, ◌++◌, map, Option, none, some,
  Result, ok, err, fault, length,
}
use spop.Action.{Action}
use spop.Message
use spop.Frame.{Frame, new_frame, type_agent_ack}
use spop.Message.{Messages, read_message, decode, decode_loop}
use spop.Request.{Request, new_request}
use spop.Pool.{
  MessageBox, FrameBox, RequestBox, Pools, Chooser, acquire_message, release_message, acquire_frame,
  release_frame, acquire_request, fill, decode_messages,
}
use spop.Pool.Notify.{Header, fill_ack, set_header, message_of, process_notify, serve_notify, lend}
use spop.Pool.Tally.{total}
use spop.Pool.Owned.{serve_notify-total}
use spop.Pool.Clean.{frame_of, IsCleanMessage, IsClean}
use spop.Pool.Kept.{
  acquire_message-IsClean, release_message-IsClean, acquire_frame-IsClean, release_frame-IsClean,
  acquire_request-IsClean, release_request-IsClean,
}

-- What a handler sees of a request: no messages are the nil pointer.
abbrev pub lent_messages : Option (List MessageBox) → Messages
lent_messages none = []
lent_messages (some messages) = map message_of messages

abbrev pub seen : RequestBox → Request
seen r = record {
  engine_id = r.engine_id;
  stream_id = r.stream_id;
  frame_id = r.frame_id;
  messages = lent_messages r.messages;
  actions = r.actions;
}

map-append :
    (xs ys : List MessageBox) → map message_of (xs ++ ys) ≡ map message_of xs ++ map message_of ys
map-append [] ys = refl
map-append (x ∷ xs) ys = ap (λ l. message_of x ∷ l) (map-append xs ys)

fill-read :
    (m : MessageBox) (read : Message.Message) → IsCleanMessage m → message_of (fill m read) ≡ read
unfolding fill
fill-read m read (_, e) = ap (λ items. record { name = read.name; kv = items ++ read.kv }) e

-- `Decode` into a frame's messages, on pooled messages and on new ones.
record Decodes (fuel : ℕ) (buf : List ℕ) (f : FrameBox) (out : FrameBox × Pools × Result (Unit {0}))
    : Type 0 where
  same : (map message_of out.0.messages, out.2) ≡ decode_loop fuel buf (map message_of f.messages)
  clean : IsClean out.1
  rest : frame_of out.0 ≡ record (frame_of f) { messages = map message_of out.0.messages }

module _ (ch : Chooser) where
  decode_messages-Decodes :
      (fuel : ℕ) (buf : List ℕ) (f : FrameBox) (p : Pools)
      → IsClean p
      → Decodes fuel buf f (decode_messages ch fuel buf f p)
  unfolding decode_messages decode_loop
  decode_messages-Decodes fuel [] f p h = record { same = refl; clean = h; rest = refl }
  decode_messages-Decodes zero (b ∷ buf) f p h = record { same = refl; clean = h; rest = refl }
  decode_messages-Decodes (suc fuel) (b ∷ buf) f p h =
      let (same, clean, rest) = go (read_message (b ∷ buf)) (λ rest g.
        decode_messages-Decodes fuel rest g (acquire_message ch p).1
          (acquire_message-IsClean ch p h).1) in
      record { same = same; clean = clean; rest = rest }
    where
      m : MessageBox
      m = (acquire_message ch p).0

      p' : Pools
      p' = (acquire_message ch p).1

      longer : Message.Message → FrameBox
      longer read = record f { messages = f.messages ++ (fill m read ∷ []) }

      outcome : Result (Message.Message × List ℕ) → FrameBox × Pools × Result (Unit {0})
      outcome (ok (read, rest)) = decode_messages ch fuel rest (longer read) p'
      outcome (err e) = (f, release_message ch m p', err e)
      outcome (fault x) = (f, release_message ch m p', fault x)

      expected : Messages → Result (Message.Message × List ℕ) → Messages × Result (Unit {0})
      expected messages (ok (read, rest)) = decode_loop fuel rest (messages ++ (read ∷ []))
      expected messages (err e) = (messages, err e)
      expected messages (fault x) = (messages, fault x)

      decodes : Result (Message.Message × List ℕ) → Type 0
      decodes r =
          ((map message_of (outcome r).0.messages, (outcome r).2)
            ≡ expected (map message_of f.messages) r)
          × IsClean (outcome r).1
          × (frame_of (outcome r).0
              ≡ record (frame_of f) { messages = map message_of (outcome r).0.messages })

      go :
          (r : Result (Message.Message × List ℕ))
          → ((rest : List ℕ) (g : FrameBox)
              → Decodes fuel rest g (decode_messages ch fuel rest g p'))
          → decodes r
      go (ok (read, rest)) again =
          let k = again rest (longer read) in
          let shown : map message_of (longer read).messages
              ≡ map message_of f.messages ++ (read ∷ []) =
            map-append f.messages (fill m read ∷ [])
            ∙ ap (λ x. map message_of f.messages ++ (x ∷ []))
                (fill-read m read (acquire_message-IsClean ch p h).0) in
          (k.same ∙ ap (decode_loop fuel rest) shown, k.clean, k.rest)
      go (err e) again =
          (refl, release_message-IsClean ch m p' (acquire_message-IsClean ch p h).1, refl)
      go (fault x) again =
          (refl, release_message-IsClean ch m p' (acquire_message-IsClean ch p h).1, refl)

  process_notify-IsClean :
      (engine_id : List ℕ) (handler : RequestBox → List Action) (f : FrameBox) (p : Pools)
      → IsClean p
      → IsClean (process_notify ch engine_id handler f p).1
  unfolding process_notify
  process_notify-IsClean engine_id handler f p h = release_frame-IsClean ch f _ (
      release_request-IsClean ch _ _ (
        release_frame-IsClean ch _ _
          (acquire_frame-IsClean ch _ (acquire_request-IsClean ch p h).1).1))

  -- The request that is lent the messages of a frame.
  abbrev request_for : List ℕ → FrameBox → Pools → RequestBox
  request_for engine_id f p = lend engine_id f (acquire_request ch p).0

  -- The ACK has the frame's identifiers and the actions that the handler left in that request.
  process_notify-ack :
      (engine_id : List ℕ) (handler : RequestBox → List Action) (f : FrameBox) (p : Pools)
      → IsClean p
      → frame_of (process_notify ch engine_id handler f p).0 ≡ record new_frame {
        type = type_agent_ack;
        stream_id = f.stream_id;
        frame_id = f.frame_id;
        actions = handler (request_for engine_id f p);
      }
  unfolding process_notify fill_ack lend
  process_notify-ack engine_id handler f p h =
      ap {A = Frame}
        (λ g. record g {
          type = type_agent_ack;
          stream_id = f.stream_id;
          frame_id = f.frame_id;
          actions = handler (request_for engine_id f p);
        })
        (acquire_frame-IsClean ch _ (acquire_request-IsClean ch p h).1).0

module _ (ch : Chooser) (h : Header) (engine_id : List ℕ) (buf : List ℕ) (p : Pools) where
  -- The frame with its messages, and the pools, when the NOTIFY has been read.
  abbrev read_in : FrameBox × Pools × Result (Unit {0})
  read_in =
      decode_messages ch (length buf) buf (set_header h (acquire_frame ch p).0)
        (acquire_frame ch p).1

  abbrev served :
      (RequestBox → List Action) → FrameBox × Pools × Result (Unit {0}) → Option FrameBox × Pools
  served handler (f, p₂, ok _) =
      let (ack_frame, answered) = process_notify ch engine_id handler f p₂ in
      (some ack_frame, answered)
  served handler (f, p₂, err e) = (none, release_frame ch f p₂)
  served handler (f, p₂, fault x) = (none, release_frame ch f p₂)

  serve_notify-served :
      (handler : RequestBox → List Action)
      → serve_notify ch h engine_id handler buf p ≡ served handler read_in
  unfolding serve_notify
  serve_notify-served handler = go read_in
    where
      go :
          (out : FrameBox × Pools × Result (Unit {0}))
          → elim out.2 [
            | ok _ ↦ (
              some (process_notify ch engine_id handler out.0 out.1).0,
              (process_notify ch engine_id handler out.0 out.1).1,
            )
            | err e ↦ (none, release_frame ch out.0 out.1)
            | fault x ↦ (none, release_frame ch out.0 out.1)
          ]
            ≡ served handler out
      go (f, p₂, ok _) = refl
      go (f, p₂, err e) = refl
      go (f, p₂, fault x) = refl

  served-IsClean :
      (handler : RequestBox → List Action) (out : FrameBox × Pools × Result (Unit {0}))
      → IsClean out.1
      → IsClean (served handler out).1
  served-IsClean handler (f, p₂, ok _) k = process_notify-IsClean ch engine_id handler f p₂ k
  served-IsClean handler (f, p₂, err e) k = release_frame-IsClean ch f p₂ k
  served-IsClean handler (f, p₂, fault x) k = release_frame-IsClean ch f p₂ k

  served-ok :
      (handler : RequestBox → List Action) (out : FrameBox × Pools × Result (Unit {0}))
      → out.2 ≡ ok tt
      → (served handler out).0 ≡ some (process_notify ch engine_id handler out.0 out.1).0
  served-ok handler (f, p₂, ok _) e = refl
  served-ok handler (f, p₂, err x) e = cc
  served-ok handler (f, p₂, fault x) e = cc

  served-err :
      (handler : RequestBox → List Action) (out : FrameBox × Pools × Result (Unit {0})) (x : Error)
      → out.2 ≡ err x
      → (served handler out).0 ≡ none
  served-err handler (f, p₂, ok _) x e = cc
  served-err handler (f, p₂, err _) x e = refl
  served-err handler (f, p₂, fault y) x e = cc

-- What serving a NOTIFY's bytes does to pools and handler, and what is written for it.
pub record Serves (ch : Chooser) (h : Header) (engine_id : List ℕ) (buf : List ℕ) (p : Pools)
    : Type 0 where
  pub stays_clean :
      (handler : RequestBox → List Action) → IsClean (serve_notify ch h engine_id handler buf p).1
  pub all_back :
      (handler : RequestBox → List Action) (d : ℕ)
      → total (serve_notify ch h engine_id handler buf p).1 d ≡ total p d
  pub answers :
      (messages : Messages)
      → decode [] buf ≡ (messages, ok tt)
      → (req : RequestBox) × (seen req ≡ record new_request {
        engine_id = engine_id;
        stream_id = h.stream_id;
        frame_id = h.frame_id;
        messages = messages;
      })
        × ((handler : RequestBox → List Action)
            → (ack_frame : FrameBox) × ((serve_notify ch h engine_id handler buf p).0
                ≡ some ack_frame)
              × (frame_of ack_frame ≡ record new_frame {
                type = type_agent_ack;
                stream_id = h.stream_id;
                frame_id = h.frame_id;
                actions = handler req;
              }))
  pub refuses :
      (messages : Messages) (x : Error)
      → decode [] buf ≡ (messages, err x)
      → (handler : RequestBox → List Action) → (serve_notify ch h engine_id handler buf p).0 ≡ none

-- Whatever objects the pools hand out, when all that they hold is as new: a NOTIFY is served and
-- the pools hold only such objects again, each as often as before, those that were made included.
-- If its bytes can be decoded, there is one request, the same for every handler, that shows the
-- messages that `Decode` makes of them on a new list, the NOTIFY's identifiers, the engine's name,
-- and nothing that an earlier request has left; and the ACK frame to be written is a new one but
-- for its type, the NOTIFY's identifiers and the actions that the handler leaves for that request.
-- If they cannot be decoded, no ACK is written.
pub serve_notify-Serves :
    (ch : Chooser) (h : Header) (engine_id buf : List ℕ) (p : Pools)
    → IsClean p
    → Serves ch h engine_id buf p
unfolding decode lend
serve_notify-Serves ch h engine_id buf p clean_before =
    let (clean, k) = acquire_frame-IsClean ch p clean_before in
    let f₀ : FrameBox = set_header h (acquire_frame ch p).0 in
    let p₁ : Pools = (acquire_frame ch p).1 in
    let out : FrameBox × Pools × Result (Unit {0}) = read_in ch h engine_id buf p in
    let d : Decodes (length buf) buf f₀ out = decode_messages-Decodes ch (length buf) buf f₀ p₁ k in
    let fresh = (acquire_request-IsClean ch out.1 d.clean).0 in
    let served_by = serve_notify-served ch h engine_id buf p in
    let none_before : map message_of f₀.messages ≡ [] = ap (λ g. g.messages) clean in
    let decodes : (map message_of out.0.messages, out.2) ≡ decode_loop (length buf) buf [] =
      d.same ∙ ap (decode_loop (length buf) buf) none_before in
    let stream : out.0.stream_id ≡ h.stream_id = ap (λ g. g.stream_id) d.rest in
    let frame : out.0.frame_id ≡ h.frame_id = ap (λ g. g.frame_id) d.rest in
    record {
      stays_clean = λ handler.
          subst (λ o. IsClean o.1) (sym (served_by handler))
            (served-IsClean ch h engine_id buf p handler out d.clean);
      all_back = λ handler n. serve_notify-total ch h engine_id handler buf p n;
      answers = λ messages e.
          let decoded : map message_of out.0.messages ≡ messages = ap (λ x. x.0) (decodes ∙ e) in
          let well : out.2 ≡ ok tt = ap (λ x. x.1) (decodes ∙ e) in
          (
            request_for ch engine_id out.0 out.1,
            cc (decoded, stream, frame, ap (λ r. r.actions) fresh),
            λ handler. (
              (process_notify ch engine_id handler out.0 out.1).0,
              ap (λ o. o.0) (served_by handler) ∙ served-ok ch h engine_id buf p handler out well,
              cc (process_notify-ack ch engine_id handler out.0 out.1 d.clean, stream, frame),
            ),
          );
      refuses = λ messages x e handler.
          ap (λ o. o.0) (served_by handler)
          ∙ served-err ch h engine_id buf p handler out x (ap (λ y. y.1) (decodes ∙ e));
    }
