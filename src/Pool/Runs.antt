-- ===== src/Pool/Runs.antt =====
-- A NOTIFY on pools that hold a frame and a message, and the release of a message.
use spop.Base.{false, ◌≡◌, refl, [], ◌∷◌, some}
use spop.TypedData.{null}
use spop.Frame.{flag_fin}
use spop.Pool.{
  FrameBox, Pools, Chooser, release_message, reset_message, release_kv, acquire_kv, pick, take_at,
}
use spop.Pool.Clean.{IsClean}
use spop.Pool.Notify.{Header}
use spop.Pool.Served.{Serves, serve_notify-Serves}

abbrev first_of_all : Chooser
first_of_all = record {
  kv_at = λ p. some 0;
  message_at = λ p. some 0;
  frame_at = λ p. some 0;
  request_at = λ p. some 0;
}

abbrev pooled_frame : FrameBox
pooled_frame = record {
  id = 1;
  len = 0;
  type = 0;
  flags = flag_fin;
  engine_id = [];
  stream_id = 0;
  frame_id = 0;
  healthcheck = false;
  frame_size = 0;
  kv = record { id = 0; items = [] };
  messages = [];
  actions = [];
}

abbrev two_pooled : Pools
two_pooled = record {
  kvs = [];
  messages = record { id = 3; name = []; kv = record { id = 2; items = [] } } ∷ [];
  frames = pooled_frame ∷ [];
  requests = [];
  next = 4;
}

two_pooled-IsClean : IsClean two_pooled
two_pooled-IsClean = record {
  kvs_clean = tt;
  messages_clean = ((refl, refl), tt);
  frames_clean = (refl, tt);
  requests_clean = tt;
}

-- A message goes back with a KV that the pool hands out: here its own.
message_released :
    (release_message first_of_all
      (record {
        id = 7;
        name = 0x6d ∷ [];
        kv = record { id = 5; items = record { name = 0x6b ∷ []; value = null } ∷ [] };
      })
      two_pooled).messages
    ≡ record { id = 7; name = []; kv = record { id = 5; items = [] } } ∷ two_pooled.messages
unfolding release_message reset_message release_kv acquire_kv pick take_at
message_released = refl

abbrev header : Header
header = record { len = 10; flags = flag_fin; stream_id = 1; frame_id = 2 }

serve_notify-Serves_example : Serves first_of_all header (0x65 ∷ []) (1 ∷ 0x6d ∷ 0 ∷ []) two_pooled
serve_notify-Serves_example =
    serve_notify-Serves first_of_all header (0x65 ∷ []) (1 ∷ 0x6d ∷ 0 ∷ []) two_pooled
      two_pooled-IsClean
