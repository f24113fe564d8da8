-- ===== src/Frame.antt =====
-- frame/frame.go: frames, their flags and their types. `Encode` is in Frame/Encode, `ReadLimit`
-- in Frame/Read. A frame owns its KV and its messages, so they are fields here; `tmp` and
-- `varintBuf` are scratch space that every use overwrites. An acquired frame is taken as a new one
-- here; Pool has the pool.
pub mod Encode
pub mod Read
pub mod Safety
pub mod Encoding
pub mod Gate
pub mod RoundTrip
pub mod Payloads
mod Runs
use spop.Base.{ℕ, ◌+◌, ◌^◌, Bool, true, false, List, [], ◌∷◌, bit_and, ltb}
use spop.Action.{Action}
use spop.Kv
use spop.Kv.{Kv, new_kv}
use spop.Message
use spop.Message.{Messages}

abbrev pub flag_fin : ℕ
flag_fin = 0x01

abbrev pub flag_abort : ℕ
flag_abort = 0x02

abbrev pub max_frame_size : ℕ
max_frame_size = 2 ^ 20

abbrev pub min_frame_len : ℕ
min_frame_len = 5

abbrev pub frame_length_prefix : ℕ
frame_length_prefix = 4

abbrev pub type_unset : ℕ
type_unset = 0x00

abbrev pub type_haproxy_hello : ℕ
type_haproxy_hello = 0x01

abbrev pub type_haproxy_disconnect : ℕ
type_haproxy_disconnect = 0x02

abbrev pub type_notify : ℕ
type_notify = 0x03

abbrev pub type_agent_hello : ℕ
type_agent_hello = 0x65

abbrev pub type_agent_disconnect : ℕ
type_agent_disconnect = 0x66

abbrev pub type_agent_ack : ℕ
type_agent_ack = 0x67

abbrev pub from_haproxy : List ℕ
from_haproxy = type_haproxy_hello ∷ type_haproxy_disconnect ∷ type_notify ∷ []

abbrev pub from_agent : List ℕ
from_agent = type_agent_hello ∷ type_agent_disconnect ∷ type_agent_ack ∷ []

-- No actions are the nil `Actions`.
pub record Frame : Type 0 where
  pub len : ℕ
  pub type : ℕ
  pub flags : ℕ
  pub engine_id : List ℕ
  pub stream_id : ℕ
  pub frame_id : ℕ
  pub healthcheck : Bool
  pub frame_size : ℕ
  pub kv : Kv
  pub messages : Messages
  pub actions : List Action

-- `NewFrame`; the field `MaxFrameSize` is called `frame_size`.
abbrev pub new_frame : Frame
new_frame = record {
  len = 0;
  type = type_unset;
  flags = flag_fin;
  engine_id = [];
  stream_id = 0;
  frame_id = 0;
  healthcheck = false;
  frame_size = 0;
  kv = new_kv;
  messages = [];
  actions = [];
}

-- `Reset`
unfoldable pub reset : Frame → Frame
unfolding Kv.reset
reset f = record {
  len = 0;
  type = 0;
  flags = flag_fin;
  engine_id = [];
  stream_id = 0;
  frame_id = 0;
  healthcheck = false;
  frame_size = 0;
  actions = [];
  messages = Message.reset f.messages;
  kv = Kv.reset f.kv;
}

unfoldable pub is_fin : Frame → Bool
is_fin f = ltb 0 (bit_and f.flags flag_fin)

unfoldable pub is_abort : Frame → Bool
is_abort f = ltb 0 (bit_and f.flags flag_abort)
