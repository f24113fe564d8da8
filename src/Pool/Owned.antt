-- ===== src/Pool/Owned.antt =====
-- Acquiring and releasing neither lose an object nor hand it out twice.
use spop.Base.{
  ℕ, zero, suc, ◌+◌, ◌≡◌, refl, List, [], ◌∷◌, ◌++◌, Option, none, some, Result, ok, err, fault,
  arith, length,
}
use spop.Action.{Action}
use spop.Message
use spop.Message.{read_message}
use spop.Pool.{
  KvBox, MessageBox, FrameBox, RequestBox, Pools, Chooser, pick, acquire_kv, release_kv,
  make_message, acquire_message, reset_message, release_message, reset_messages, make_frame,
  acquire_frame, reset_frame, release_frame, make_request, acquire_request, reset_request,
  release_request, fill, decode_messages,
}
use spop.Pool.Tally.{
  kv_tally, message_tally, tallies, frame_tally, request_tally, total, unborn-suc, pick-tallies,
  tallies-append,
}
use spop.Pool.Notify.{Header, set_header, process_notify, serve_notify, lend, fill_ack}

module _ (ch : Chooser) (d : ℕ) where
  acquire_kv-total :
      (p : Pools) → total p d ≡ kv_tally (acquire_kv ch p).0 d + total (acquire_kv ch p).1 d
  unfolding acquire_kv
  acquire_kv-total p = go (pick (ch.kv_at p) p.kvs) refl
    where
      outcome : Option (KvBox × List KvBox) → KvBox × Pools
      outcome none = (record { id = p.next; items = [] }, record p { next = suc p.next })
      outcome (some (b, rest)) = (b, record p { kvs = rest })

      go :
          (o : Option (KvBox × List KvBox))
          → pick (ch.kv_at p) p.kvs ≡ o
          → total p d ≡ kv_tally (outcome o).0 d + total (outcome o).1 d
      go none e = omega (arith, unborn-suc p.next d)
      go (some (b, rest)) e = omega (arith, pick-tallies kv_tally d (ch.kv_at p) p.kvs b rest e)

  release_kv-total : (b : KvBox) (p : Pools) → total (release_kv b p) d ≡ kv_tally b d + total p d
  unfolding release_kv
  release_kv-total b p = omega arith

  make_message-total :
      (p : Pools)
      → total p d ≡ message_tally (make_message ch p).0 d + total (make_message ch p).1 d
  unfolding make_message
  make_message-total p = omega (arith, acquire_kv-total p, unborn-suc (acquire_kv ch p).1.next d)

  acquire_message-total :
      (p : Pools)
      → total p d ≡ message_tally (acquire_message ch p).0 d + total (acquire_message ch p).1 d
  unfolding acquire_message
  acquire_message-total p = go (pick (ch.message_at p) p.messages) refl
    where
      outcome : Option (MessageBox × List MessageBox) → MessageBox × Pools
      outcome none = make_message ch p
      outcome (some (m, rest)) = (m, record p { messages = rest })

      go :
          (o : Option (MessageBox × List MessageBox))
          → pick (ch.message_at p) p.messages ≡ o
          → total p d ≡ message_tally (outcome o).0 d + total (outcome o).1 d
      go none e = make_message-total p
      go (some (m, rest)) e =
          omega (arith, pick-tallies message_tally d (ch.message_at p) p.messages m rest e)

  release_message-total :
      (m : MessageBox) (p : Pools)
      → total (release_message ch m p) d ≡ message_tally m d + total p d
  unfolding release_message reset_message
  release_message-total m p =
      omega (arith, acquire_kv-total (release_kv m.kv p), release_kv-total m.kv p)

  reset_messages-total :
      (messages : List MessageBox) (p : Pools)
      → total (reset_messages ch messages p) d ≡ tallies message_tally messages d + total p d
  unfolding reset_messages
  reset_messages-total [] p = omega arith
  reset_messages-total (m ∷ messages) p =
      omega
        (arith, reset_messages-total messages (release_message ch m p), release_message-total m p)

  make_frame-total :
      (p : Pools) → total p d ≡ frame_tally (make_frame ch p).0 d + total (make_frame ch p).1 d
  unfolding make_frame
  make_frame-total p = omega (arith, acquire_kv-total p, unborn-suc (acquire_kv ch p).1.next d)

  acquire_frame-total :
      (p : Pools)
      → total p d ≡ frame_tally (acquire_frame ch p).0 d + total (acquire_frame ch p).1 d
  unfolding acquire_frame
  acquire_frame-total p = go (pick (ch.frame_at p) p.frames) refl
    where
      outcome : Option (FrameBox × List FrameBox) → FrameBox × Pools
      outcome none = make_frame ch p
      outcome (some (f, rest)) = (f, record p { frames = rest })

      go :
          (o : Option (FrameBox × List FrameBox))
          → pick (ch.frame_at p) p.frames ≡ o
          → total p d ≡ frame_tally (outcome o).0 d + total (outcome o).1 d
      go none e = make_frame-total p
      go (some (f, rest)) e =
          omega (arith, pick-tallies frame_tally d (ch.frame_at p) p.frames f rest e)

  release_frame-total :
      (f : FrameBox) (p : Pools) → total (release_frame ch f p) d ≡ frame_tally f d + total p d
  unfolding release_frame reset_frame
  release_frame-total f p = omega (arith, reset_messages-total f.messages p)

  acquire_request-total :
      (p : Pools)
      → total p d ≡ request_tally (acquire_request ch p).0 d + total (acquire_request ch p).1 d
  unfolding acquire_request make_request
  acquire_request-total p = go (pick (ch.request_at p) p.requests) refl
    where
      outcome : Option (RequestBox × List RequestBox) → RequestBox × Pools
      outcome none = make_request p
      outcome (some (r, rest)) = (r, record p { requests = rest })

      go :
          (o : Option (RequestBox × List RequestBox))
          → pick (ch.request_at p) p.requests ≡ o
          → total p d ≡ request_tally (outcome o).0 d + total (outcome o).1 d
      go none e = omega (arith, unborn-suc p.next d)
      go (some (r, rest)) e =
          omega (arith, pick-tallies request_tally d (ch.request_at p) p.requests r rest e)

  release_request-total :
      (r : RequestBox) (p : Pools) → total (release_request r p) d ≡ request_tally r d + total p d
  unfolding release_request reset_request
  release_request-total r p = omega arith

  decode_messages-total :
      (fuel : ℕ) (buf : List ℕ) (f : FrameBox) (p : Pools)
      → frame_tally f d + total p d
        ≡ frame_tally (decode_messages ch fuel buf f p).0 d
          + total (decode_messages ch fuel buf f p).1 d
  unfolding decode_messages fill
  decode_messages-total fuel [] f p = refl
  decode_messages-total zero (b ∷ buf) f p = refl
  decode_messages-total (suc fuel) (b ∷ buf) f p =
      go (read_message (b ∷ buf))
        (λ rest g. decode_messages-total fuel rest g (acquire_message ch p).1)
    where
      m : MessageBox
      m = (acquire_message ch p).0

      p' : Pools
      p' = (acquire_message ch p).1

      longer : Message.Message → FrameBox
      longer read = record f { messages = f.messages ++ (fill m read ∷ []) }

      outcome : Result (Message.Message × List ℕ) → FrameBox × Pools × Result (Unit {0})
      outcome (ok (read, rest)) = decode_messages ch fuel rest (longer read) p'
      outcome (err e) = (f, release_message ch m p', err e)
      outcome (fault x) = (f, release_message ch m p', fault x)

      go :
          (r : Result (Message.Message × List ℕ))
          → ((rest : List ℕ) (g : FrameBox)
              → frame_tally g d + total p' d
                ≡ frame_tally (decode_messages ch fuel rest g p').0 d
                  + total (decode_messages ch fuel rest g p').1 d)
          → frame_tally f d + total p d ≡ frame_tally (outcome r).0 d + total (outcome r).1 d
      go (ok (read, rest)) again = omega (
        arith,
        again rest (longer read),
        acquire_message-total p,
        tallies-append message_tally d f.messages (fill m read ∷ []),
      )
      go (err e) again = omega (arith, acquire_message-total p, release_message-total m p')
      go (fault x) again = omega (arith, acquire_message-total p, release_message-total m p')

  process_notify-total :
      (engine_id : List ℕ) (handler : RequestBox → List Action) (f : FrameBox) (p : Pools)
      → total (process_notify ch engine_id handler f p).1 d ≡ frame_tally f d + total p d
  unfolding process_notify lend fill_ack
  process_notify-total engine_id handler f p =
      let req : RequestBox = lend engine_id f (acquire_request ch p).0 in
      let lent : RequestBox = record req { actions = handler req } in
      let p₁ : Pools = (acquire_request ch p).1 in
      let ack : FrameBox = fill_ack f lent (acquire_frame ch p₁).0 in
      let p₂ : Pools = (acquire_frame ch p₁).1 in
      omega (
        arith,
        acquire_request-total p,
        acquire_frame-total p₁,
        release_frame-total ack p₂,
        release_request-total lent (release_frame ch ack p₂),
        release_frame-total f (release_request lent (release_frame ch ack p₂)),
      )

-- Serving a NOTIFY gives every pooled object back, once: whatever its bytes and its handler are, a
-- number stands in the pools, or is still to be given, as often afterwards as before.
pub serve_notify-total :
    (ch : Chooser) (h : Header) (engine_id : List ℕ) (handler : RequestBox → List Action)
    (buf : List ℕ) (p : Pools) (d : ℕ)
    → total (serve_notify ch h engine_id handler buf p).1 d ≡ total p d
unfolding serve_notify
serve_notify-total ch h engine_id handler buf p d =
    go (decode_messages ch (length buf) buf f₀ p₁)
      (decode_messages-total ch d (length buf) buf f₀ p₁)
  where
    f₀ : FrameBox
    f₀ = set_header h (acquire_frame ch p).0

    p₁ : Pools
    p₁ = (acquire_frame ch p).1

    outcome : FrameBox × Pools × Result (Unit {0}) → Option FrameBox × Pools
    outcome (f, p₂, ok _) =
        let (ack_frame, answered) = process_notify ch engine_id handler f p₂ in
        (some ack_frame, answered)
    outcome (f, p₂, err e) = (none, release_frame ch f p₂)
    outcome (f, p₂, fault x) = (none, release_frame ch f p₂)

    go :
        (out : FrameBox × Pools × Result (Unit {0}))
        → frame_tally f₀ d + total p₁ d ≡ frame_tally out.0 d + total out.1 d
        → total (outcome out).1 d ≡ total p d
    go (f, p₂, ok _) e =
        omega
          (arith, e, acquire_frame-total ch d p, process_notify-total ch d engine_id handler f p₂)
    go (f, p₂, err x) e =
        omega (arith, e, acquire_frame-total ch d p, release_frame-total ch d f p₂)
    go (f, p₂, fault x) e =
        omega (arith, e, acquire_frame-total ch d p, release_frame-total ch d f p₂)
