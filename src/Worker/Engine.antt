-- ===== src/Worker/Engine.antt =====
-- The engine's name is settled once the worker is ready: `processHAProxyHello` runs once at most.
use spop.Base.{ℕ, ◌≡◌, refl, ap, Bool, true, List, Option, none, some, ◌-◌}
use spop.Action.{Action}
use spop.Request.{Request}
use spop.Frame.Read.{Source}
use spop.Worker.{Setting, Worker, close_worker, slot_limit}
use spop.Worker.Loop.{
  Phase, arming, reading, dispatching, parked, starting, draining, closing, stopped,
}
use spop.Worker.Machine.{
  Task, Machine, release_slot, loop_turn, Step, turns, unparks, gives_up, drains, answers, reports,
  tears_down, leaves, begins_drain, pokes, closes_all,
}
use spop.Worker.Answering.{answer_same}
use spop.Worker.Dispatch.{dispatch-Turned}
use spop.Worker.Turns.{
  arm_turn-Turned, read_turn-Turned, disconnect_once_engine_id, expire-engine_id,
}
use spop.Worker.Session.{Inv}

release_slot_engine_id : (s : Setting) (w : Worker) → (release_slot s w).engine_id ≡ w.engine_id
unfolding release_slot
release_slot_engine_id s w = go (slot_limit s.config)
  where
    released : Option ℕ → Worker
    released none = w
    released (some limit) = record w { slots = w.slots - 1 }

    go : (o : Option ℕ) → (released o).engine_id ≡ w.engine_id
    go none = refl
    go (some limit) = refl

turn_engine_id :
    (s : Setting) (later : Bool) (w : Worker) (src : Source) (p : Phase) (tasks : List Task)
    → Inv (record { worker = w; source = src; phase = p; tasks = tasks })
    → w.ready ≡ true
    → (loop_turn s later
        (record { worker = w; source = src; phase = p; tasks = tasks })).worker.engine_id
      ≡ w.engine_id
unfolding loop_turn close_worker
turn_engine_id s later w src arming tasks i r =
    (arm_turn-Turned s later w i.in_order).keeps_engine r
turn_engine_id s later w src reading tasks i r =
    (read_turn-Turned s src w i.in_order).keeps_engine r
turn_engine_id s later w src (dispatching f) tasks i r =
    (dispatch-Turned s f w i.in_order).keeps_engine r
turn_engine_id s later w src (starting f) tasks i r = refl
turn_engine_id s later w src (closing e) tasks i r = refl
turn_engine_id s later w src (parked f) tasks i r = refl
turn_engine_id s later w src draining tasks i r = refl
turn_engine_id s later w src (stopped e) tasks i r = refl

pub Step_engine_id :
    {s : Setting} {handler : Request → List Action → Type 0} {m m' : Machine}
    → Inv m
    → Step s handler m m'
    → m.worker.ready ≡ true
    → m'.worker.engine_id ≡ m.worker.engine_id
unfolding close_worker
Step_engine_id {s} {m = m} i (turns later _) r =
    turn_engine_id s later m.worker m.source m.phase m.tasks i r
Step_engine_id i (unparks f n _ p e room) r = refl
Step_engine_id i (gives_up f _ p d) r = refl
Step_engine_id {s} {m = m} i (drains _ p e) r = disconnect_once_engine_id s _ _ m.worker
Step_engine_id {s} {m = m} i (answers f before after actions _ e _) r =
    ap (λ v. v.engine_id) (answer_same s f actions m.worker)
Step_engine_id {s} {m = m} i (reports code notice before after _ e) r =
    disconnect_once_engine_id s code notice m.worker
Step_engine_id i (tears_down before after _ e) r = refl
Step_engine_id {s} {m = m} i (leaves before after _ e) r = release_slot_engine_id s m.worker
Step_engine_id i begins_drain r = refl
Step_engine_id {s} {m = m} i (pokes d) r = expire-engine_id s m.worker
Step_engine_id i (closes_all d) r = refl
