-- ===== src/Worker/Session.antt =====
-- The frames of a connection, whatever its peer sends and however its goroutines interleave.
use spop.Base.{
  ℕ, ◌+◌, ◌≤◌, ◌≡◌, ◌≢◌, refl, sym, subst, ap, ◌∙◌, Bool, true, false, List, [], ◌∷◌, ◌++◌, Option,
  none, some, ◌⊎◌, inl, inr, Error, arith, if◌then◌else◌, map, ◌-◌,
}
use spop.Action.{Action}
use spop.Request.{Request}
use spop.Frame.{Frame}
use spop.Frame.Read.{Source}
use spop.Transport.{NetConn, Conn, close, close_conn}
use spop.Transport.Calls.{writes}
use spop.Worker.{Setting, Worker, disconnect_once, close_worker, slot_limit, ack_frame}
use spop.Worker.Loop.{
  Phase, arming, reading, dispatching, parked, starting, draining, closing, stopped,
}
use spop.Worker.Answering.{answer-write_ack, answer_same}
use spop.Worker.Machine.{
  Task, handling, reporting, tearing_down, leaving, Machine, answer, release_slot, loop_turn, Step,
  turns, unparks, gives_up, drains, answers, reports, tears_down, leaves, begins_drain, pokes,
  closes_all, Reach, start, onwards,
}
use spop.Worker.Sending.{sent_types, type_at}
use spop.Worker.Order.{
  Carried, silent, bit, InOrder, Holds-same, Holds-over, disconnect_once-InOrder, write_ack-InOrder,
}
use spop.Worker.Dispatch.{dispatch-Turned}
use spop.Worker.Turns.{
  is_over, has_notify, Turned, arm_turn-Turned, read_turn-Turned, expire-InOrder, expire-ready,
  disconnect_once_ready,
}

-- Handlers run only on a connection that is ready.
pub record Inv (m : Machine) : Type 0 where
  pub in_order : InOrder m.worker (is_over m.phase)
  pub notify_ready : has_notify m.phase ≡ true → m.worker.ready ≡ true
  pub busy : (m.tasks ≡ []) ⊎ (m.worker.ready ≡ true)

busy-ready :
    {tasks : List Task} {r r' : Bool}
    → (r ≡ true → r' ≡ true)
    → (tasks ≡ []) ⊎ (r ≡ true)
    → (tasks ≡ []) ⊎ (r' ≡ true)
busy-ready f (inl e) = inl e
busy-ready f (inr e) = inr (f e)

from_turn :
    {s : Setting} {w : Worker} {out : Worker × Phase} (src : Source) (tasks : List Task)
    → Turned s w out
    → (tasks ≡ []) ⊎ (w.ready ≡ true)
    → Inv (record { worker = out.0; source = src; phase = out.1; tasks = tasks })
from_turn src tasks t b = record {
  in_order = t.in_order;
  notify_ready = t.notify_ready;
  busy = busy-ready t.stays_ready b;
}

pub close_conn-writes :
    (net : NetConn) (c : Conn) → writes (close_conn net c).0.calls ≡ writes c.calls
unfolding close_conn
close_conn-writes net c = go c.closed
  where
    outcome : Bool → Conn × Option Error
    outcome b =
        if b
        then (c, none)
        else (record c { calls = close ∷ c.calls; closed = true }, net.on_close c.calls)

    go : (b : Bool) → writes (outcome b).0.calls ≡ writes c.calls
    go true = refl
    go false = refl

close_worker-InOrder :
    (s : Setting) (w : Worker) {over : Bool} → InOrder w over → InOrder (close_worker s w) over
unfolding close_worker
close_worker-InOrder s w h =
    Holds-same (ap (map type_at) (close_conn-writes s.net w.conn)) refl refl refl h

pub close_worker_ready : (s : Setting) (w : Worker) → (close_worker s w).ready ≡ w.ready
unfolding close_worker
close_worker_ready s w = refl

turn-Inv :
    (s : Setting) (later : Bool) (w : Worker) (src : Source) (p : Phase) (tasks : List Task)
    → Inv (record { worker = w; source = src; phase = p; tasks = tasks })
    → Inv (loop_turn s later (record { worker = w; source = src; phase = p; tasks = tasks }))
unfolding loop_turn
turn-Inv s later w src arming tasks i =
    from_turn src tasks (arm_turn-Turned s later w i.in_order) i.busy
turn-Inv s later w src reading tasks i =
    from_turn _ tasks (read_turn-Turned s src w i.in_order) i.busy
turn-Inv s later w src (dispatching f) tasks i =
    from_turn src tasks (dispatch-Turned s f w i.in_order) i.busy
turn-Inv s later w src (starting f) tasks i = record {
  in_order = i.in_order;
  notify_ready = λ e. cc;
  busy = inr (i.notify_ready refl);
}
turn-Inv s later w src (closing r) tasks i = record {
  in_order = close_worker-InOrder s w i.in_order;
  notify_ready = λ e. cc;
  busy = busy-ready (λ r. close_worker_ready s w ∙ r) i.busy;
}
turn-Inv s later w src (parked f) tasks i = i
turn-Inv s later w src draining tasks i = i
turn-Inv s later w src (stopped r) tasks i = i

filled : (before after : List Task) (t : Task) → before ++ (t ∷ after) ≢ []
filled [] after t p = cc
filled (x ∷ xs) after t p = cc

-- A task is there only on a connection that is ready.
pub busy-middle :
    {m : Machine} (before after : List Task) (t : Task)
    → Inv m
    → m.tasks ≡ before ++ (t ∷ after)
    → m.worker.ready ≡ true
busy-middle before after t i e = elim i.busy [
  | inl none_left ↦ elim (filled before after t (sym e ∙ none_left)) [ ]
  | inr r ↦ r
]

answer-InOrder :
    (s : Setting) (f : Frame) (actions : List Action) (w : Worker) {over : Bool}
    → w.ready ≡ true
    → InOrder w over
    → InOrder (answer s f actions w).0 over
answer-InOrder s f actions w {over} r h =
    subst (λ v. InOrder v over) (sym (answer-write_ack s f actions w))
      (write_ack-InOrder s (ack_frame f actions) w refl r h)

pub answer_ready :
    (s : Setting) (f : Frame) (actions : List Action) (w : Worker)
    → (answer s f actions w).0.ready ≡ w.ready
answer_ready s f actions w = ap (λ v. v.ready) (answer_same s f actions w)

pub release_slot-InOrder :
    (s : Setting) (w : Worker) {over : Bool}
    → InOrder w over
    → InOrder (release_slot s w) over × ((release_slot s w).ready ≡ w.ready)
unfolding release_slot
release_slot-InOrder s w {over} h = go (slot_limit s.config)
  where
    released : Option ℕ → Worker
    released none = w
    released (some limit) = record w { slots = w.slots - 1 }

    go : (o : Option ℕ) → InOrder (released o) over × ((released o).ready ≡ w.ready)
    go none = (h, refl)
    go (some limit) = (h, refl)

-- A task ran: the loop stands where it did, on a connection that was ready and still is.
task_ran :
    (m : Machine) (w : Worker) (tasks : List Task)
    → InOrder w (is_over m.phase)
    → w.ready ≡ m.worker.ready
    → m.worker.ready ≡ true
    → Inv (record m { worker = w; tasks = tasks })
task_ran m w tasks h e r = record { in_order = h; notify_ready = λ _. e ∙ r; busy = inr (e ∙ r) }

Step-Inv :
    {s : Setting} {handler : Request → List Action → Type 0} {m m' : Machine}
    → Inv m
    → Step s handler m m'
    → Inv m'
Step-Inv {s} {m = m} i (turns later _) = turn-Inv s later m.worker m.source m.phase m.tasks i
Step-Inv {m = m} i (unparks f limit _ p _ _) =
    let r = i.notify_ready (ap has_notify p) in
    record {
      in_order = subst (λ q. InOrder m.worker (is_over q)) p i.in_order;
      notify_ready = λ _. r;
      busy = inr r;
    }
Step-Inv {m = m} i (gives_up f _ p d) = record {
  in_order = subst (λ q. InOrder m.worker (is_over q)) p i.in_order;
  notify_ready = λ e. cc;
  busy = i.busy;
}
Step-Inv {s} {m = m} i (drains _ p e) = record {
  in_order = disconnect_once-InOrder s _ _ m.worker (inl refl) (Holds-over i.in_order);
  notify_ready = λ e. cc;
  busy = inl e;
}
Step-Inv {s} {m = m} i (answers f before after actions _ e _) =
    let r = busy-middle before after (handling f) i e in
    task_ran m (answer s f actions m.worker).0 _ (answer-InOrder s f actions m.worker r i.in_order)
      (answer_ready s f actions m.worker) r
Step-Inv {s} {m = m} i (reports code notice before after _ e) =
    let r = busy-middle before after (reporting code notice) i e in
    task_ran m (disconnect_once s code notice m.worker) _
      (disconnect_once-InOrder s code notice m.worker (inr r) i.in_order)
      (disconnect_once_ready s code notice m.worker) r
Step-Inv {s} {m = m} i (tears_down before after _ e) =
    task_ran m (close_worker s m.worker) _ (close_worker-InOrder s m.worker i.in_order)
      (close_worker_ready s m.worker) (busy-middle before after tearing_down i e)
Step-Inv {s} {m = m} i (leaves before after _ e) =
    let (h, same) = release_slot-InOrder s m.worker i.in_order in
    task_ran m (release_slot s m.worker) _ h same (busy-middle before after leaving i e)
Step-Inv {m = m} i begins_drain = record {
  in_order = i.in_order;
  notify_ready = i.notify_ready;
  busy = i.busy;
}
Step-Inv {s} {m = m} i (pokes d) = record {
  in_order = expire-InOrder s m.worker i.in_order;
  notify_ready = λ e. expire-ready s m.worker ∙ i.notify_ready e;
  busy = busy-ready (λ r. expire-ready s m.worker ∙ r) i.busy;
}
Step-Inv {s} {m = m} i (closes_all d) = record {
  in_order = close_worker-InOrder s m.worker i.in_order;
  notify_ready = λ e. close_worker_ready s m.worker ∙ i.notify_ready e;
  busy = busy-ready (λ r. close_worker_ready s m.worker ∙ r) i.busy;
}

pub Reach-Inv :
    {s : Setting} {handler : Request → List Action → Type 0} {src : Source} {m : Machine}
    → Reach s handler src m
    → Inv m
Reach-Inv start = record {
  in_order = record {
    greeted = false;
    goodbyes = 0;
    carried = silent;
    few = omega arith;
    latched = λ e. refl;
    ready_greeted = λ e. cc;
    fresh = λ r o. refl;
  };
  notify_ready = λ e. cc;
  busy = inl refl;
}
Reach-Inv (onwards r st) = Step-Inv (Reach-Inv r) st

bit-le : (b : Bool) → bit b ≤ 1
bit-le true = omega arith
bit-le false = omega arith

-- Whatever the peer sends, the handlers do and the net.Conn answers, and however the goroutines
-- interleave: a connection carries an AGENT-HELLO first, then ACKs, then AGENT-DISCONNECTs and
-- nothing behind them, at most one for `disconnectOnce` having run and one for the read loop
-- having ended.
pub Reach-Carried :
    (s : Setting) (handler : Request → List Action → Type 0) (src : Source) (m : Machine)
    → Reach s handler src m
    → (greeted : Bool) × (n : ℕ) × Carried greeted n (sent_types m.worker)
      × (n ≤ bit m.worker.disconnected + bit (is_over m.phase))
Reach-Carried s handler src m r =
    let i = (Reach-Inv r).in_order in (i.greeted, i.goodbyes, i.carried, i.few)
