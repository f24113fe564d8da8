-- ===== src/Request.antt =====
-- request/request.go: what a handler is given for a NOTIFY. The messages are the frame's own.
use spop.Base.{ℕ, List, []}
use spop.Action.{Action}
use spop.Message.{Messages}

pub record Request : Type 0 where
  pub engine_id : List ℕ
  pub stream_id : ℕ
  pub frame_id : ℕ
  pub messages : Messages
  pub actions : List Action

-- `newRequest`; no messages are the nil pointer. Pool has the pool.
abbrev pub new_request : Request
new_request = record { engine_id = []; stream_id = 0; frame_id = 0; messages = []; actions = [] }
