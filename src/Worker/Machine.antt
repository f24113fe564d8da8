-- ===== src/Worker/Machine.antt =====
-- The goroutines of a connection: the read loop, the NOTIFY handlers of worker/frame_notify.go, and
-- the agent that begins a drain, sets read deadlines and closes what is left. A step runs one of
-- them up to the end of a region that a lock protects, or to where it waits.
use spop.Base.{
  ℕ, suc, ◌-◌, ◌<◌, ◌≡◌, Bool, true, false, List, [], ◌∷◌, ◌++◌, none, some, ok, err, fault, Error,
  after_disconnect, cannot_encode, frame_too_big,
}
use spop.Action.{Action}
use spop.Request.{Request}
use spop.Frame.{Frame}
use spop.Frame.Read.{Source}
use spop.Transport.{new_conn}
use spop.Handshake.{
  Notice, status_normal, status_io_error, status_frame_too_big, status_unknown, shutting_down,
  of_error,
}
use spop.Worker.{
  Setting, Worker, new_worker, slot_limit, disconnect_once, close_worker, request_of, ack_frame,
  write_ack,
}
use spop.Worker.Loop.{
  Phase, arming, reading, dispatching, parked, starting, draining, closing, stopped, expire,
  arm_turn, read_turn, dispatch,
}

-- Where a NOTIFY's goroutine stands: in its handler, with an ACK that could not be written and the
-- AGENT-DISCONNECT that reports it, before the close, and before its slot is given back.
pub data Task : Type 0 where
  handling : Frame → Task
  reporting : ℕ → Notice → Task
  tearing_down leaving : Task

pub record Machine : Type 0 where
  pub worker : Worker
  pub source : Source
  pub phase : Phase
  pub tasks : List Task

-- A worker on the connection that the agent made for it, with its write timeout.
abbrev pub new_machine : Setting → Source → Machine
new_machine s src = record {
  worker = new_worker (record new_conn { write_timeout = s.config.timeouts.write });
  source = src;
  phase = arming;
  tasks = [];
}

-- The switch over the error of `writeFrame` in `processNotifyFrame`.
unfoldable pub report_of : Error → Task
report_of after_disconnect = leaving
report_of (frame_too_big size limit) =
    reporting status_frame_too_big (of_error (frame_too_big size limit))
report_of (cannot_encode e) = reporting status_unknown (of_error (cannot_encode e))
report_of e = reporting status_io_error (of_error e)

-- The handler of a frame has returned with actions.
unfoldable pub answer : Setting → Frame → List Action → Worker → Worker × Task
unfolding report_of
answer s f actions w =
    let (w', r) = write_ack s (ack_frame f actions) w in
    elim r [ ok _ ↦ (w', leaving) | err e ↦ (w', report_of e) | fault x ↦ (w', leaving) ]

-- `releaseSlot`
unfoldable pub release_slot : Setting → Worker → Worker
release_slot s w = elim (slot_limit s.config) [
  | none ↦ w
  | some limit ↦ record w { slots = w.slots - 1 }
]

-- A move of the read loop by itself.
unfoldable pub loop_turn : Setting → Bool → Machine → Machine
loop_turn s later m = elim m.phase [
  | arming ↦ let (w, p) = arm_turn s later m.worker in record m { worker = w; phase = p }
  | reading ↦
      let (w, src, p) = read_turn s m.source m.worker in
      record m { worker = w; source = src; phase = p }
  | dispatching f ↦ let (w, p) = dispatch s f m.worker in record m { worker = w; phase = p }
  | starting f ↦ record m { phase = arming; tasks = handling f ∷ m.tasks }
  | closing r ↦ record m {
    worker = record (close_worker s m.worker) { cancelled = true };
    phase = stopped r;
  }
  | parked f ↦ m
  | draining ↦ m
  | stopped r ↦ m
]

-- The handlers of the setting's program: which actions one may leave in its request.
pub data Step (s : Setting) (handler : Request → List Action → Type 0) (m : Machine)
    : Machine → Type 0 where
  turns : (later : Bool) → m.worker.panicked ≡ false → Step s handler m (loop_turn s later m)
  unparks :
      (f : Frame) (limit : ℕ)
      → m.worker.panicked ≡ false
      → m.phase ≡ parked f
      → slot_limit s.config ≡ some limit
      → m.worker.slots < limit
      → Step s handler m
          (record m { worker = record m.worker { slots = suc m.worker.slots }; phase = starting f })
  gives_up :
      (f : Frame)
      → m.worker.panicked ≡ false
      → m.phase ≡ parked f
      → m.worker.done ≡ true
      → Step s handler m (record m { phase = draining })
  drains :
      m.worker.panicked ≡ false
      → m.phase ≡ draining
      → m.tasks ≡ []
      → Step s handler m (record m {
        worker = disconnect_once s status_normal shutting_down m.worker;
        phase = closing none;
      })
  answers :
      (f : Frame) (before after : List Task) (actions : List Action)
      → m.worker.panicked ≡ false
      → m.tasks ≡ before ++ handling f ∷ after
      → handler (request_of m.worker f) actions
      → Step s handler m (record m {
        worker = (answer s f actions m.worker).0;
        tasks = before ++ (answer s f actions m.worker).1 ∷ after;
      })
  reports :
      (status_code : ℕ) (notice : Notice) (before after : List Task)
      → m.worker.panicked ≡ false
      → m.tasks ≡ before ++ reporting status_code notice ∷ after
      → Step s handler m (record m {
        worker = disconnect_once s status_code notice m.worker;
        tasks = before ++ tearing_down ∷ after;
      })
  tears_down :
      (before after : List Task)
      → m.worker.panicked ≡ false
      → m.tasks ≡ before ++ tearing_down ∷ after
      → Step s handler m
          (record m { worker = close_worker s m.worker; tasks = before ++ leaving ∷ after })
  leaves :
      (before after : List Task)
      → m.worker.panicked ≡ false
      → m.tasks ≡ before ++ leaving ∷ after
      → Step s handler m (record m { worker = release_slot s m.worker; tasks = before ++ after })
  begins_drain : Step s handler m (record m { worker = record m.worker { done = true } })
  pokes : m.worker.done ≡ true → Step s handler m (record m { worker = (expire s m.worker).0 })
  closes_all :
      m.worker.done ≡ true → Step s handler m (record m { worker = close_worker s m.worker })

-- What a connection can get to, whatever it receives and however its goroutines are scheduled.
pub data Reach (s : Setting) (handler : Request → List Action → Type 0) (src : Source)
    : Machine → Type 0 where
  start : Reach s handler src (new_machine s src)
  onwards : {m m' : Machine} → Reach s handler src m → Step s handler m m' → Reach s handler src m'
