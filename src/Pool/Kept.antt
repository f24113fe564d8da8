-- ===== src/Pool/Kept.antt =====
-- What stands in a pool is as new, and so is what comes out of it.
use spop.Base.{suc, ◌≡◌, refl, ap, List, [], ◌∷◌, Option, none, some}
use spop.Frame.{new_frame}
use spop.Pool.{
  KvBox, MessageBox, FrameBox, RequestBox, Pools, Chooser, pick, acquire_kv, release_kv,
  make_message, acquire_message, reset_message, release_message, reset_messages, make_frame,
  acquire_frame, reset_frame, release_frame, make_request, acquire_request, reset_request,
  release_request,
}
use spop.Pool.Clean.{IsCleanKv, IsCleanMessage, IsCleanFrame, IsCleanRequest, IsClean, pick-All}

module _ (ch : Chooser) where
  acquire_kv-IsClean :
      (p : Pools) → IsClean p → IsCleanKv (acquire_kv ch p).0 × IsClean (acquire_kv ch p).1
  unfolding acquire_kv
  acquire_kv-IsClean p h = go (pick (ch.kv_at p) p.kvs) refl
    where
      outcome : Option (KvBox × List KvBox) → KvBox × Pools
      outcome none = (record { id = p.next; items = [] }, record p { next = suc p.next })
      outcome (some (b, rest)) = (b, record p { kvs = rest })

      go :
          (o : Option (KvBox × List KvBox))
          → pick (ch.kv_at p) p.kvs ≡ o
          → IsCleanKv (outcome o).0 × IsClean (outcome o).1
      go none e = (
        refl,
        record {
          kvs_clean = h.kvs_clean;
          messages_clean = h.messages_clean;
          frames_clean = h.frames_clean;
          requests_clean = h.requests_clean;
        },
      )
      go (some (b, rest)) e =
          let (hb, hr) = pick-All IsCleanKv (ch.kv_at p) p.kvs b rest e h.kvs_clean in
          (
            hb,
            record {
              kvs_clean = hr;
              messages_clean = h.messages_clean;
              frames_clean = h.frames_clean;
              requests_clean = h.requests_clean;
            },
          )

  make_message-IsClean :
      (p : Pools) → IsClean p → IsCleanMessage (make_message ch p).0 × IsClean (make_message ch p).1
  unfolding make_message
  make_message-IsClean p h =
      let (hb, k) = acquire_kv-IsClean p h in
      (
        (refl, hb),
        record {
          kvs_clean = k.kvs_clean;
          messages_clean = k.messages_clean;
          frames_clean = k.frames_clean;
          requests_clean = k.requests_clean;
        },
      )

  pub acquire_message-IsClean :
      (p : Pools)
      → IsClean p
      → IsCleanMessage (acquire_message ch p).0 × IsClean (acquire_message ch p).1
  unfolding acquire_message
  acquire_message-IsClean p h = go (pick (ch.message_at p) p.messages) refl
    where
      outcome : Option (MessageBox × List MessageBox) → MessageBox × Pools
      outcome none = make_message ch p
      outcome (some (m, rest)) = (m, record p { messages = rest })

      go :
          (o : Option (MessageBox × List MessageBox))
          → pick (ch.message_at p) p.messages ≡ o
          → IsCleanMessage (outcome o).0 × IsClean (outcome o).1
      go none e = make_message-IsClean p h
      go (some (m, rest)) e =
          let (hm, hr) =
            pick-All IsCleanMessage (ch.message_at p) p.messages m rest e h.messages_clean in
          (
            hm,
            record {
              kvs_clean = h.kvs_clean;
              messages_clean = hr;
              frames_clean = h.frames_clean;
              requests_clean = h.requests_clean;
            },
          )

  pub release_message-IsClean :
      (m : MessageBox) (p : Pools) → IsClean p → IsClean (release_message ch m p)
  unfolding release_message reset_message release_kv
  release_message-IsClean m p h =
      let (hb, k) = acquire_kv-IsClean (release_kv m.kv p) (record {
        kvs_clean = (refl, h.kvs_clean);
        messages_clean = h.messages_clean;
        frames_clean = h.frames_clean;
        requests_clean = h.requests_clean;
      }) in
      record {
        kvs_clean = k.kvs_clean;
        messages_clean = ((refl, hb), k.messages_clean);
        frames_clean = k.frames_clean;
        requests_clean = k.requests_clean;
      }

  reset_messages-IsClean :
      (messages : List MessageBox) (p : Pools) → IsClean p → IsClean (reset_messages ch messages p)
  unfolding reset_messages
  reset_messages-IsClean [] p h = h
  reset_messages-IsClean (m ∷ messages) p h =
      reset_messages-IsClean messages (release_message ch m p) (release_message-IsClean m p h)

  pub acquire_frame-IsClean :
      (p : Pools) → IsClean p → IsCleanFrame (acquire_frame ch p).0 × IsClean (acquire_frame ch p).1
  unfolding acquire_frame make_frame
  acquire_frame-IsClean p h = go (pick (ch.frame_at p) p.frames) refl
    where
      outcome : Option (FrameBox × List FrameBox) → FrameBox × Pools
      outcome none = make_frame ch p
      outcome (some (f, rest)) = (f, record p { frames = rest })

      go :
          (o : Option (FrameBox × List FrameBox))
          → pick (ch.frame_at p) p.frames ≡ o
          → IsCleanFrame (outcome o).0 × IsClean (outcome o).1
      go none e =
          let (hb, k) = acquire_kv-IsClean p h in
          (
            ap (λ items. record new_frame { kv = items }) hb,
            record {
              kvs_clean = k.kvs_clean;
              messages_clean = k.messages_clean;
              frames_clean = k.frames_clean;
              requests_clean = k.requests_clean;
            },
          )
      go (some (f, rest)) e =
          let (hf, hr) = pick-All IsCleanFrame (ch.frame_at p) p.frames f rest e h.frames_clean in
          (
            hf,
            record {
              kvs_clean = h.kvs_clean;
              messages_clean = h.messages_clean;
              frames_clean = hr;
              requests_clean = h.requests_clean;
            },
          )

  pub release_frame-IsClean :
      (f : FrameBox) (p : Pools) → IsClean p → IsClean (release_frame ch f p)
  unfolding release_frame reset_frame
  release_frame-IsClean f p h =
      let k = reset_messages-IsClean f.messages p h in
      record {
        kvs_clean = k.kvs_clean;
        messages_clean = k.messages_clean;
        frames_clean = (refl, k.frames_clean);
        requests_clean = k.requests_clean;
      }

  pub acquire_request-IsClean :
      (p : Pools)
      → IsClean p
      → IsCleanRequest (acquire_request ch p).0 × IsClean (acquire_request ch p).1
  unfolding acquire_request make_request
  acquire_request-IsClean p h = go (pick (ch.request_at p) p.requests) refl
    where
      outcome : Option (RequestBox × List RequestBox) → RequestBox × Pools
      outcome none = make_request p
      outcome (some (r, rest)) = (r, record p { requests = rest })

      go :
          (o : Option (RequestBox × List RequestBox))
          → pick (ch.request_at p) p.requests ≡ o
          → IsCleanRequest (outcome o).0 × IsClean (outcome o).1
      go none e = (
        refl,
        record {
          kvs_clean = h.kvs_clean;
          messages_clean = h.messages_clean;
          frames_clean = h.frames_clean;
          requests_clean = h.requests_clean;
        },
      )
      go (some (r, rest)) e =
          let (hq, hr) =
            pick-All IsCleanRequest (ch.request_at p) p.requests r rest e h.requests_clean in
          (
            hq,
            record {
              kvs_clean = h.kvs_clean;
              messages_clean = h.messages_clean;
              frames_clean = h.frames_clean;
              requests_clean = hr;
            },
          )

  pub release_request-IsClean :
      (r : RequestBox) (p : Pools) → IsClean p → IsClean (release_request r p)
  unfolding release_request reset_request
  release_request-IsClean r p h = record {
    kvs_clean = h.kvs_clean;
    messages_clean = h.messages_clean;
    frames_clean = h.frames_clean;
    requests_clean = (refl, h.requests_clean);
  }
