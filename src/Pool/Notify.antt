-- ===== src/Pool/Notify.antt =====
-- The pooled objects of a NOTIFY: `run` reads it into a frame, `processNotifyFrame` answers it.
use spop.Base.{ℕ, List, Option, none, some, ok, err, fault, length}
use spop.Action.{Action}
use spop.Message
use spop.Frame.{type_notify, type_agent_ack}
use spop.Pool.{
  MessageBox, FrameBox, RequestBox, Pools, Chooser, acquire_frame, release_frame, acquire_request,
  release_request, decode_messages,
}

-- What the handler sees of a message and of a request.
abbrev pub message_of : MessageBox → Message.Message
message_of m = record { name = m.name; kv = m.kv.items }

-- The frame's messages are lent to the request.
unfoldable pub lend : List ℕ → FrameBox → RequestBox → RequestBox
lend engine_id f req = record req {
  stream_id = f.stream_id;
  frame_id = f.frame_id;
  engine_id = engine_id;
  messages = some f.messages;
}

-- The ACK frame takes the actions that the handler left.
unfoldable pub fill_ack : FrameBox → RequestBox → FrameBox → FrameBox
fill_ack f req ack_frame = record ack_frame {
  type = type_agent_ack;
  stream_id = f.stream_id;
  frame_id = f.frame_id;
  actions = req.actions;
}

-- `processNotifyFrame`, with the ACK frame that it hands to `writeFrame`: the deferred releases run
-- in the reverse order of their acquisitions.
unfoldable pub process_notify :
    Chooser → List ℕ → (RequestBox → List Action) → FrameBox → Pools → FrameBox × Pools
unfolding lend fill_ack
process_notify ch engine_id handler f p =
    let (acquired, p₁) = acquire_request ch p in
    let lent = lend engine_id f acquired in
    let req = record lent { actions = handler lent } in
    let (ack_frame, p₂) = acquire_frame ch p₁ in
    let filled = fill_ack f req ack_frame in
    (filled, release_frame ch f (release_request req (release_frame ch filled p₂)))

-- What stands in a frame before its messages, which `ReadLimit` sets before it decodes them.
pub record Header : Type 0 where
  pub len : ℕ
  pub flags : ℕ
  pub stream_id : ℕ
  pub frame_id : ℕ

abbrev pub set_header : Header → FrameBox → FrameBox
set_header h f = record f {
  len = h.len;
  type = type_notify;
  flags = h.flags;
  stream_id = h.stream_id;
  frame_id = h.frame_id;
}

-- A frame is acquired, the messages of a NOTIFY are read into it, and it is answered or, when they
-- cannot be read, released. No other goroutine comes in between.
unfoldable pub serve_notify :
    Chooser
    → Header
    → List ℕ
    → (RequestBox → List Action)
    → List ℕ
    → Pools
    → Option FrameBox × Pools
unfolding process_notify
serve_notify ch h engine_id handler buf p =
    let (acquired, p₁) = acquire_frame ch p in
    let (f, p₂, r) = decode_messages ch (length buf) buf (set_header h acquired) p₁ in
    let (ack_frame, answered) = process_notify ch engine_id handler f p₂ in
    let released = release_frame ch f p₂ in
    elim r [
      | ok _ ↦ (some ack_frame, answered)
      | err e ↦ (none, released)
      | fault x ↦ (none, released)
    ]
