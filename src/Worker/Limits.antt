-- ===== src/Worker/Limits.antt =====
-- MaxInFlight: the slots of `acquireSlot` and `releaseSlot` against the NOTIFYs in flight.
use spop.Base.{
  ℕ, zero, suc, ◌<◌, ℤ, pos, negsuc, ◌+◌, ◌-◌, ◌≤◌, ◌≡◌, refl, sym, ap, ◌∙◌, Bool, true, false,
  List, ◌∷◌, ◌++◌, Option, none, some, arith, length, length-append,
}
use spop.Action.{Action}
use spop.Request.{Request}
use spop.Frame.{Frame}
use spop.Frame.Read.{Source}
use spop.Worker.{Setting, Worker, slot_limit, close_worker}
use spop.Worker.Loop.{
  Phase, arming, reading, dispatching, parked, starting, draining, closing, stopped,
}
use spop.Worker.Answering.{answer_same}
use spop.Worker.Machine.{
  Task, handling, leaving, Machine, answer, release_slot, loop_turn, Step, turns, unparks, gives_up,
  drains, answers, reports, tears_down, leaves, begins_drain, pokes, closes_all, Reach, start,
  onwards,
}
use spop.Worker.Order.{bit}
use spop.Worker.Dispatch.{dispatch-Turned}
use spop.Worker.Turns.{
  Turned, is_starting, arm_turn-Turned, read_turn-Turned, disconnect_once_slots, expire-slots,
}
use spop.Worker.Session.{Inv, Reach-Inv}

pub slot_limit-pos : (s : Setting) {limit : ℕ} → slot_limit s.config ≡ some limit → 0 < limit
unfolding slot_limit
slot_limit-pos s {limit} = go s.config.max_in_flight
  where
    limit_of : ℤ → Option ℕ
    limit_of (pos zero) = none
    limit_of (pos (suc n)) = some (suc n)
    limit_of (negsuc n) = none

    go : (d : ℤ) → limit_of d ≡ some limit → 0 < limit
    go (pos zero) e = cc
    go (pos (suc n)) e = ground (arith, e)
    go (negsuc n) e = cc

-- A slot is taken for each NOTIFY in flight and for the one that is being started, none beyond
-- the limit.
pub record Slots (limit : ℕ) (m : Machine) : Type 0 where
  pub taken : m.worker.slots ≡ length m.tasks + bit (is_starting m.phase)
  pub within : m.worker.slots ≤ limit

from_turn :
    {s : Setting} {w : Worker} {out : Worker × Phase} (limit : ℕ) (src : Source) (tasks : List Task)
    → slot_limit s.config ≡ some limit
    → Turned s w out
    → w.slots ≡ length tasks + 0
    → w.slots ≤ limit
    → Slots limit (record { worker = out.0; source = src; phase = out.1; tasks = tasks })
from_turn {s} {w} {out} limit src tasks c t e h = record {
  taken = t.same_slots ∙ e ∙ ap (λ n. length tasks + n) (sym (idle (is_starting out.1) refl));
  within = rw t.same_slots h;
}
  where
    idle : (b : Bool) → is_starting out.1 ≡ b → bit b ≡ 0
    idle true p = let u = t.unlimited p in cc
    idle false p = refl

turn-Slots :
    (s : Setting) (limit : ℕ) (later : Bool) (w : Worker) (src : Source) (p : Phase)
    (tasks : List Task)
    → slot_limit s.config ≡ some limit
    → Inv (record { worker = w; source = src; phase = p; tasks = tasks })
    → Slots limit (record { worker = w; source = src; phase = p; tasks = tasks })
    → Slots limit
        (loop_turn s later (record { worker = w; source = src; phase = p; tasks = tasks }))
unfolding loop_turn close_worker
turn-Slots s limit later w src arming tasks c i h =
    from_turn limit src tasks c (arm_turn-Turned s later w i.in_order) h.taken h.within
turn-Slots s limit later w src reading tasks c i h =
    from_turn limit _ tasks c (read_turn-Turned s src w i.in_order) h.taken h.within
turn-Slots s limit later w src (dispatching f) tasks c i h =
    from_turn limit src tasks c (dispatch-Turned s f w i.in_order) h.taken h.within
turn-Slots s limit later w src (starting f) tasks c i h = record {
  taken = omega (arith, h.taken);
  within = h.within;
}
turn-Slots s limit later w src (closing r) tasks c i h = record {
  taken = h.taken;
  within = h.within;
}
turn-Slots s limit later w src (parked f) tasks c i h = h
turn-Slots s limit later w src draining tasks c i h = h
turn-Slots s limit later w src (stopped r) tasks c i h = h

answer_slots :
    (s : Setting) (f : Frame) (actions : List Action) (w : Worker)
    → (answer s f actions w).0.slots ≡ w.slots
answer_slots s f actions w = ap (λ v. v.slots) (answer_same s f actions w)

release_slot_slots :
    (s : Setting) (limit : ℕ) (w : Worker)
    → slot_limit s.config ≡ some limit
    → (release_slot s w).slots ≡ w.slots - 1
unfolding release_slot
release_slot_slots s limit w c = go (slot_limit s.config) c
  where
    released : Option ℕ → Worker
    released none = w
    released (some n) = record w { slots = w.slots - 1 }

    go : (o : Option ℕ) → o ≡ some limit → (released o).slots ≡ w.slots - 1
    go none p = cc
    go (some n) p = refl

-- A task went on to its next stage.
same_tasks :
    (limit : ℕ) (m : Machine) (w : Worker) (before after : List Task) (t t' : Task)
    → m.tasks ≡ before ++ (t ∷ after)
    → w.slots ≡ m.worker.slots
    → Slots limit m
    → Slots limit (record m { worker = w; tasks = before ++ (t' ∷ after) })
same_tasks limit m w before after t t' e q h = record {
  taken = omega (
    arith,
    q,
    h.taken,
    ap length e,
    length-append before (t ∷ after),
    length-append before (t' ∷ after),
  );
  within = omega (arith, q, h.within);
}

Step-Slots :
    {s : Setting} {handler : Request → List Action → Type 0} {m m' : Machine} (limit : ℕ)
    → slot_limit s.config ≡ some limit
    → Inv m
    → Slots limit m
    → Step s handler m m'
    → Slots limit m'
Step-Slots {s} {m = m} limit c i h (turns later _) =
    turn-Slots s limit later m.worker m.source m.phase m.tasks c i h
Step-Slots {m = m} limit c i h (unparks f n _ p e room) = record {
  taken = omega (arith, h.taken, ap (λ q. bit (is_starting q)) p);
  within = let same : n ≡ limit = cc (sym e ∙ c) in omega (arith, room, same);
}
Step-Slots {m = m} limit c i h (gives_up f _ p d) = record {
  taken = h.taken ∙ ap (λ q. length m.tasks + bit (is_starting q)) p;
  within = h.within;
}
Step-Slots {s} {m = m} limit c i h (drains _ p e) = record {
  taken =
      disconnect_once_slots s _ _ m.worker
      ∙ h.taken
      ∙ ap (λ q. length m.tasks + bit (is_starting q)) p;
  within = rw (disconnect_once_slots s) h.within;
}
Step-Slots {s} {m = m} limit c i h (answers f before after actions _ e _) =
    same_tasks limit m _ before after (handling f) _ e (answer_slots s f actions m.worker) h
Step-Slots {s} {m = m} limit c i h (reports code notice before after _ e) =
    same_tasks limit m _ before after _ _ e (disconnect_once_slots s code notice m.worker) h
Step-Slots {s} {m = m} limit c i h (tears_down before after _ e) =
    same_tasks limit m _ before after _ _ e (unfold close_worker in refl) h
Step-Slots {s} {m = m} limit c i h (leaves before after _ e) = record {
  taken = omega (
    arith,
    release_slot_slots s limit m.worker c,
    h.taken,
    ap length e,
    length-append before (leaving ∷ after),
    length-append before after,
  );
  within = omega (arith, release_slot_slots s limit m.worker c, h.within);
}
Step-Slots {m = m} limit c i h begins_drain = record { taken = h.taken; within = h.within }
Step-Slots {s} {m = m} limit c i h (pokes d) = record {
  taken = expire-slots s m.worker ∙ h.taken;
  within = omega (arith, expire-slots s m.worker, h.within);
}
Step-Slots {m = m} limit c i h (closes_all d) = record {
  taken = unfold close_worker in h.taken;
  within = unfold close_worker in h.within;
}

-- With a positive MaxInFlight every slot taken stands for one NOTIFY in flight or about to start,
-- and there are never more of them than that, however the goroutines interleave.
pub Reach-Slots :
    (s : Setting) (handler : Request → List Action → Type 0) (src : Source) (m : Machine)
    (limit : ℕ)
    → slot_limit s.config ≡ some limit
    → Reach s handler src m
    → Slots limit m
Reach-Slots s handler src _ limit c start = record { taken = refl; within = omega arith }
Reach-Slots s handler src m limit c (onwards r st) =
    Step-Slots limit c (Reach-Inv r) (Reach-Slots s handler src _ limit c r) st
