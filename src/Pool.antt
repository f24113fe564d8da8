-- ===== src/Pool.antt =====
-- The pools of payload/kv/kv.go, message/message.go, frame/frame.go and request/request.go, and how
-- `run` and `processNotifyFrame` use them. An object is known by a number, as by its pointer, and
-- stands with its owner: a KV with its frame or message, a message with its frame. A `sync.Pool`
-- hands out any object that it holds, or a new one. That it may also drop some when memory is
-- collected is left out.
pub mod Notify
pub mod Tally
pub mod Owned
pub mod Clean
pub mod Kept
pub mod Served
mod Runs
use spop.Base.{
  ℕ, zero, suc, Bool, false, List, [], ◌∷◌, ◌++◌, Option, none, some, Result, ok, err, fault,
  out_of_fuel,
}
use spop.Action.{Action}
use spop.Kv.{Kv}
use spop.Message
use spop.Message.{read_message}
use spop.Frame.{flag_fin, type_unset, type_agent_ack}

pub record KvBox : Type 0 where
  pub id : ℕ
  pub items : Kv

pub record MessageBox : Type 0 where
  pub id : ℕ
  pub name : List ℕ
  pub kv : KvBox

pub record FrameBox : Type 0 where
  pub id : ℕ
  pub len : ℕ
  pub type : ℕ
  pub flags : ℕ
  pub engine_id : List ℕ
  pub stream_id : ℕ
  pub frame_id : ℕ
  pub healthcheck : Bool
  pub frame_size : ℕ
  pub kv : KvBox
  pub messages : List MessageBox
  pub actions : List Action

-- The messages are borrowed from a frame; `none` is the nil pointer.
pub record RequestBox : Type 0 where
  pub id : ℕ
  pub engine_id : List ℕ
  pub stream_id : ℕ
  pub frame_id : ℕ
  pub messages : Option (List MessageBox)
  pub actions : List Action

-- What the pools hold; the numbers from `next` on are those of objects still to be made.
pub record Pools : Type 0 where
  pub kvs : List KvBox
  pub messages : List MessageBox
  pub frames : List FrameBox
  pub requests : List RequestBox
  pub next : ℕ

-- Which object a `Get` hands out; `none`, or a place that there is not, is a call of `New`.
pub record Chooser : Type 0 where
  pub kv_at : Pools → Option ℕ
  pub message_at : Pools → Option ℕ
  pub frame_at : Pools → Option ℕ
  pub request_at : Pools → Option ℕ

unfoldable pub take_at {ℓ} : {A : Type ℓ} → List A → ℕ → Option (A × List A)
take_at [] n = none
take_at (x ∷ xs) zero = some (x, xs)
take_at (x ∷ xs) (suc n) = elim (take_at xs n) [ none ↦ none | some (y, ys) ↦ some (y, x ∷ ys) ]

unfoldable pub pick {ℓ} : {A : Type ℓ} → Option ℕ → List A → Option (A × List A)
unfolding take_at
pick none xs = none
pick (some n) xs = take_at xs n

-- `AcquireKV`, `ReleaseKV`
unfoldable pub acquire_kv : Chooser → Pools → KvBox × Pools
unfolding pick
acquire_kv ch p = elim (pick (ch.kv_at p) p.kvs) [
  | none ↦ (record { id = p.next; items = [] }, record p { next = suc p.next })
  | some (b, rest) ↦ (b, record p { kvs = rest })
]

unfoldable pub release_kv : KvBox → Pools → Pools
release_kv b p = record p { kvs = record b { items = [] } ∷ p.kvs }

-- `newMessage`, `AcquireMessage`
unfoldable pub make_message : Chooser → Pools → MessageBox × Pools
unfolding acquire_kv
make_message ch p =
    let (kv, p') = acquire_kv ch p in
    (record { id = p'.next; name = []; kv = kv }, record p' { next = suc p'.next })

unfoldable pub acquire_message : Chooser → Pools → MessageBox × Pools
unfolding pick make_message
acquire_message ch p = elim (pick (ch.message_at p) p.messages) [
  | none ↦ make_message ch p
  | some (m, rest) ↦ (m, record p { messages = rest })
]

-- `Message.Reset`, `ReleaseMessage`, `Messages.Reset`
unfoldable pub reset_message : Chooser → MessageBox → Pools → MessageBox × Pools
unfolding acquire_kv release_kv
reset_message ch m p =
    let (kv, p') = acquire_kv ch (release_kv m.kv p) in (record m { name = []; kv = kv }, p')

unfoldable pub release_message : Chooser → MessageBox → Pools → Pools
unfolding reset_message
release_message ch m p =
    let (m', p') = reset_message ch m p in record p' { messages = m' ∷ p'.messages }

unfoldable pub reset_messages : Chooser → List MessageBox → Pools → Pools
unfolding release_message
reset_messages ch [] p = p
reset_messages ch (m ∷ messages) p = reset_messages ch messages (release_message ch m p)

-- `NewFrame`, `AcquireFrame`
unfoldable pub make_frame : Chooser → Pools → FrameBox × Pools
unfolding acquire_kv
make_frame ch p =
    let (kv, p') = acquire_kv ch p in
    (
      record {
        id = p'.next;
        len = 0;
        type = type_unset;
        flags = flag_fin;
        engine_id = [];
        stream_id = 0;
        frame_id = 0;
        healthcheck = false;
        frame_size = 0;
        kv = kv;
        messages = [];
        actions = [];
      },
      record p' { next = suc p'.next },
    )

unfoldable pub acquire_frame : Chooser → Pools → FrameBox × Pools
unfolding pick make_frame
acquire_frame ch p = elim (pick (ch.frame_at p) p.frames) [
  | none ↦ make_frame ch p
  | some (f, rest) ↦ (f, record p { frames = rest })
]

-- `Frame.Reset`: it releases its messages, and keeps its KV.
unfoldable pub reset_frame : Chooser → FrameBox → Pools → FrameBox × Pools
unfolding reset_messages
reset_frame ch f p = (
  record f {
    len = 0;
    type = 0;
    flags = flag_fin;
    engine_id = [];
    stream_id = 0;
    frame_id = 0;
    healthcheck = false;
    frame_size = 0;
    actions = [];
    messages = [];
    kv = record f.kv { items = [] };
  },
  reset_messages ch f.messages p,
)

-- `ReleaseFrame`
unfoldable pub release_frame : Chooser → FrameBox → Pools → Pools
unfolding reset_frame
release_frame ch f p = let (f', p') = reset_frame ch f p in record p' { frames = f' ∷ p'.frames }

-- `newRequest`, `AcquireRequest`
unfoldable pub make_request : Pools → RequestBox × Pools
make_request p = (
  record {
    id = p.next;
    engine_id = [];
    stream_id = 0;
    frame_id = 0;
    messages = none;
    actions = [];
  },
  record p { next = suc p.next },
)

unfoldable pub acquire_request : Chooser → Pools → RequestBox × Pools
unfolding pick make_request
acquire_request ch p = elim (pick (ch.request_at p) p.requests) [
  | none ↦ make_request p
  | some (r, rest) ↦ (r, record p { requests = rest })
]

-- `Request.Reset` drops the messages; `ReleaseRequest`.
unfoldable pub reset_request : RequestBox → RequestBox
reset_request r = record r {
  messages = none;
  actions = [];
  engine_id = [];
  stream_id = 0;
  frame_id = 0;
}

unfoldable pub release_request : RequestBox → Pools → Pools
unfolding reset_request
release_request r p = record p { requests = reset_request r ∷ p.requests }

-- A round of `Decode` with its message: what was read of it, or the message back in its pool.
unfoldable pub fill : MessageBox → Message.Message → MessageBox
fill m read = record m { name = read.name; kv = record m.kv { items = m.kv.items ++ read.kv } }

-- `Messages.Decode`
unfoldable pub decode_messages :
    Chooser → ℕ → List ℕ → FrameBox → Pools → FrameBox × Pools × Result (Unit {0})
unfolding acquire_message release_message fill
decode_messages ch fuel [] f p = (f, p, ok tt)
decode_messages ch zero (b ∷ buf) f p = (f, p, fault out_of_fuel)
decode_messages ch (suc fuel) (b ∷ buf) f p =
    let (m, p') = acquire_message ch p in
    elim (read_message (b ∷ buf)) [
      | ok (read, rest) ↦
          decode_messages ch fuel rest (record f { messages = f.messages ++ (fill m read ∷ []) }) p'
      | err e ↦ (f, release_message ch m p', err e)
      | fault x ↦ (f, release_message ch m p', fault x)
    ]
