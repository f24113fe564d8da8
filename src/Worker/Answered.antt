-- ===== src/Worker/Answered.antt =====
-- The NOTIFYs of a connection and the ACKs that it carries, over the steps of its goroutines.
use spop.Base.{
  subst, true, inl, false, Bool, ◌+◌, ◌≤◌, ◌≡◌, refl, sym, ap, ◌∙◌, List, [], ◌++◌, arith, none,
}
use spop.Action.{Action}
use spop.Request.{Request}
use spop.Frame.{Frame}
use spop.Frame.Read.{Source}
use spop.Transport.Calls.{writes}
use spop.Worker.{Setting, Worker, close_worker, request_of}
use spop.Worker.Engine.{Step_engine_id}
use spop.Worker.Dispatch.{dispatch-Turned}
use spop.Worker.Turns.{arm_turn-Turned, read_turn-Turned, expire-ready, disconnect_once_ready}
use spop.Worker.Session.{Inv, Reach-Inv, busy-middle, close_worker_ready, release_slot-InOrder}
use spop.Worker.Loop.{
  Phase, arming, reading, dispatching, parked, starting, draining, closing, stopped, read_turn,
}
use spop.Worker.Machine.{
  handling, Task, reporting, tearing_down, leaving, Machine, release_slot, loop_turn, Step, turns,
  unparks, gives_up, drains, answers, reports, tears_down, leaves, begins_drain, pokes, closes_all,
  Reach, start, onwards,
}
use spop.Worker.Written.{Acks, no_frames, disconnect_once-Quiet}
use spop.Worker.Reads.{expire_panicked}
use spop.Worker.Spoken.{
  disconnect_once-Silent, arm_turn-Keeps, read_turn-Keeps, dispatch-Keeps, expire-Silent,
}
use spop.Worker.Lands.{OwnErrors}
use spop.Worker.Counted.{
  received_by, received, heard, held, held-middle, close_worker-Quiet, release_slot-Quiet,
  close_worker-Silent, release_slot-Silent, idle_middle, gone_middle, middle_idle, failures,
  failures-middle, Fine, ran-Fine,
}
use spop.Worker.Heard.{keys, in_hand, arm_turn-Hears, read_turn-Hears, dispatch-Hears, expire-Quiet}
use spop.Worker.Accounts.{
  Acks-engine, LeftBy, Answered, from_turn, task_ran, loop_ran, answer-Answered,
}

turn-Answered :
    (s : Setting) (later : Bool) (w : Worker) (src : Source) (p : Phase) (tasks : List Task)
    {leaves : Frame → List Action → Type 0} {fs : List Frame}
    → w.panicked ≡ false
    → Inv (record { worker = w; source = src; phase = p; tasks = tasks })
    → Answered s leaves (record { worker = w; source = src; phase = p; tasks = tasks }) fs
    → Answered s leaves
        (loop_turn s later (record { worker = w; source = src; phase = p; tasks = tasks }))
        (received_by s src w p ++ fs)
unfolding loop_turn close_worker
turn-Answered s later w src arming tasks alive v a =
    from_turn src [] (λ P. omega arith) (arm_turn-Hears s later w) (arm_turn-Keeps s later w) alive
      (λ e. cc) (arm_turn-Turned s later w v.in_order).stays_ready a
turn-Answered s later w src reading tasks alive v a =
    from_turn _ (in_hand (read_turn s src w).2) (λ P. omega arith) (read_turn-Hears s src w)
      (read_turn-Keeps s src w) alive (λ e. cc) (read_turn-Turned s src w v.in_order).stays_ready a
turn-Answered s later w src (dispatching f) tasks alive v a =
    from_turn src [] (λ P. omega arith) (dispatch-Hears s f w) (dispatch-Keeps s f w) alive
      (λ e. cc) (dispatch-Turned s f w v.in_order).stays_ready a
turn-Answered s later w src (starting f) tasks alive v a = record {
  acked = a.acked;
  written = a.written;
  ready = a.ready;
  counted = λ P. omega (arith, a.counted P);
  complete = λ own h P. omega (
    arith,
    a.complete own
        (record {
          silent = h.silent;
          alive = alive;
          live = λ e. cc;
          clean = omega (arith, h.clean);
        })
        P,
  );
}
turn-Answered s later w src (closing r) tasks alive v a = record {
  acked = a.acked;
  written = close_worker-Quiet s w _ a.acked a.written;
  ready = a.ready;
  counted = a.counted;
  complete = λ own h.
      a.complete own (record { silent = h.silent; alive = alive; live = λ e. cc; clean = h.clean });
}
turn-Answered s later w src (parked f) tasks alive v a = a
turn-Answered s later w src draining tasks alive v a = a
turn-Answered s later w src (stopped r) tasks alive v a = a

Step-Answered :
    {s : Setting} {handler : Request → List Action → Type 0} {m m' : Machine}
    (leaves : Frame → List Action → Type 0) {fs : List Frame}
    → Inv m
    → ((f : Frame) (actions : List Action)
        → m.worker.ready ≡ true
        → handler (request_of m.worker f) actions
        → leaves f actions)
    → Answered s leaves m fs
    → (st : Step s handler m m') → Answered s leaves m' (received st ++ fs)
Step-Answered {s} {m = m} ls v k a (turns later alive) =
    turn-Answered s later m.worker m.source m.phase m.tasks alive v a
Step-Answered {m = m} ls v k a (unparks f limit alive p _ _) =
    loop_ran _ (starting f) (λ leaves fs h. h) (λ r. r)
      (λ P. omega (arith, ap (λ q. keys (in_hand q) P) p))
      (λ h. (
        record { silent = h.silent; alive = alive; live = λ e. cc; clean = h.clean },
        λ P. omega (arith, ap (λ q. keys (in_hand q) P) p),
      ))
      a
Step-Answered {m = m} ls v k a (gives_up f _ p d) =
    loop_ran m.worker draining (λ leaves fs h. h) (λ r. r) (λ P. omega arith)
      (λ h. elim (h.live refl) [ ]) a
Step-Answered {s} {m = m} ls v k a (drains _ p e) =
    loop_ran _ (closing none) (disconnect_once-Quiet s _ _ m.worker)
      (λ r. disconnect_once_ready s _ _ m.worker ∙ r) (λ P. omega arith)
      (λ h. elim (disconnect_once-Silent s _ _ m.worker h.silent) [ ]) a
Step-Answered {s} {m = m} ls v k a (answers f before after actions alive e left) =
    let r = busy-middle before after (handling f) v e in
    answer-Answered s m f before after actions (k f actions r left) r alive e a
Step-Answered {s} {m = m} ls v k a (reports code notice before after _ e) =
    task_ran _ _ (disconnect_once-Quiet s code notice m.worker)
      (λ r. disconnect_once_ready s code notice m.worker ∙ r)
      (idle_middle m.tasks before after (reporting code notice) tearing_down (λ P. refl) e)
      (λ h. elim (disconnect_once-Silent s code notice m.worker h.silent) [ ]) a
Step-Answered {s} {m = m} ls v k a (tears_down before after alive e) =
    task_ran (close_worker s m.worker) _ (close_worker-Quiet s m.worker)
      (λ r. close_worker_ready s m.worker ∙ r)
      (idle_middle m.tasks before after tearing_down leaving (λ P. refl) e)
      (λ h. (
        ran-Fine m (close_worker s m.worker) before after tearing_down leaving
            (close_worker-Silent s m.worker) alive e refl h,
        middle_idle m.tasks before after tearing_down leaving (λ P. refl) e,
      ))
      a
Step-Answered {s} {m = m} ls v k a (leaves before after alive e) =
    task_ran (release_slot s m.worker) _ (release_slot-Quiet s m.worker)
      (λ r. (release_slot-InOrder s m.worker v.in_order).1 ∙ r)
      (gone_middle m.tasks before after leaving e)
      (λ h. (
        record {
          silent = release_slot-Silent s m.worker h.silent;
          alive = alive;
          live = h.live;
          clean = omega (arith, h.clean, ap failures e, failures-middle before after leaving);
        },
        λ P. omega (arith, ap (λ us. held us P) e, held-middle before after leaving P),
      ))
      a
Step-Answered {m = m} ls v k a begins_drain =
    task_ran _ m.tasks (λ leaves fs h. h) (λ r. r) (λ P. omega arith)
      (λ h. (
        record { silent = h.silent; alive = h.alive; live = h.live; clean = h.clean },
        λ P. omega arith,
      ))
      a
Step-Answered {s} {m = m} ls v k a (pokes d) =
    task_ran _ m.tasks (expire-Quiet s m.worker) (λ r. expire-ready s m.worker ∙ r)
      (λ P. omega arith)
      (λ h. (
        record {
          silent = expire-Silent s m.worker h.silent;
          alive = sym (expire_panicked s m.worker) ∙ h.alive;
          live = h.live;
          clean = h.clean;
        },
        λ P. omega arith,
      ))
      a
Step-Answered {s} {m = m} ls v k a (closes_all d) =
    task_ran {m = m} (close_worker s m.worker) m.tasks (close_worker-Quiet s m.worker)
      (λ r. close_worker_ready s m.worker ∙ r) (λ P. omega arith)
      (λ h. (
        record {
          silent = close_worker-Silent s m.worker h.silent;
          alive = unfold close_worker in h.alive;
          live = h.live;
          clean = h.clean;
        },
        λ P. omega arith,
      ))
      a

-- The handler left it for a request that names the engine as it is named now.
moved-Answered :
    {s : Setting} {handler : Request → List Action → Type 0} {m m' : Machine} {fs : List Frame}
    → Inv m
    → Answered s (LeftBy handler m.worker) m fs
    → (st : Step s handler m m') → Answered s (LeftBy handler m'.worker) m' (received st ++ fs)
moved-Answered {s} {handler} {m} {m'} {fs} v a st =
    let named : m.worker.ready ≡ true → m'.worker.engine_id ≡ m.worker.engine_id =
      Step_engine_id v st in
    let again : Answered s (LeftBy handler m'.worker) m fs = record {
      acked = a.acked;
      written = Acks-engine handler m.worker m'.worker a.ready named a.written;
      ready = a.ready;
      counted = a.counted;
      complete = a.complete;
    } in
    Step-Answered (LeftBy handler m'.worker) v
      (λ f actions r left.
        subst (λ n. handler (record (request_of m.worker f) { engine_id = n }) actions)
          (sym (named r)) left)
      again st

heard-Answered :
    {s : Setting} {handler : Request → List Action → Type 0} {src : Source} {m : Machine}
    (r : Reach s handler src m)
    → Answered s (LeftBy handler m.worker) m (heard r)
unfolding heard
heard-Answered start = record {
  acked = [];
  written = no_frames;
  ready = inl refl;
  counted = λ P. omega arith;
  complete = λ own h P. omega arith;
}
heard-Answered (onwards r st) = moved-Answered (Reach-Inv r) (heard-Answered r) st

-- Whatever the peer sends, the handlers leave and the net.Conn answers, and however the goroutines
-- interleave: the ACKs that a connection carries encode, in order, ACK frames that answer NOTIFYs
-- which the connection received, each of them once at most: they have the NOTIFY's stream and frame
-- identifiers, and actions that the handler may leave for the request of that NOTIFY with its
-- messages and the name of the connection's engine. (Every test of a frame is passed by no more of
-- the answered frames than of the received ones.)
pub Reach-Answered :
    (s : Setting) (handler : Request → List Action → Type 0) (src : Source) (m : Machine)
    (r : Reach s handler src m)
    → (fs : List Frame) × Acks (LeftBy handler m.worker) (writes m.worker.conn.calls) fs
      × ((P : Frame → Bool) → keys fs P ≤ keys (heard r) P)
Reach-Answered s handler src m r =
    let a = heard-Answered r in (a.acked, a.written, λ P. omega (arith, a.counted P))

-- Where the net.Conn's errors are never the worker's own errAfterDisconnect, on a connection that
-- was reached by any interleaving and is fine (the worker has not panicked, no AGENT-DISCONNECT was
-- asked for, the read loop does not wait for its handlers, and no handler has a report to make): no
-- NOTIFY is lost. Counted by any test of a frame, those that its ACKs answer, with actions that the
-- handler may leave, those with a handler and the one in the loop's hands are exactly those that
-- were received.
pub Reach-Fine :
    (s : Setting) (handler : Request → List Action → Type 0) (src : Source) (m : Machine)
    → OwnErrors s.net
    → (r : Reach s handler src m) → Fine m
    → (fs : List Frame) × Acks (LeftBy handler m.worker) (writes m.worker.conn.calls) fs
      × ((P : Frame → Bool)
          → keys fs P + (held m.tasks P + keys (in_hand m.phase) P) ≡ keys (heard r) P)
Reach-Fine s handler src m own r h =
    let a = heard-Answered r in
    (a.acked, a.written, λ P. omega (arith, a.counted P, a.complete own h P))
