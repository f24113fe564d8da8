-- ===== src/Client/Steps.antt =====
-- A worker whose connection takes everything hears one frame after the other.
use spop.Base.{
  ℕ, ◌≡◌, refl, ap, subst, ◌∙◌, Bool, true, false, List, [], ◌∷◌, none, some, Result, ok, ◌*◌,
  eq_bytes, arith,
}
use spop.Kv.{get}
use spop.Handshake.Text.{cut, split, trim_space, atoi}
use spop.Action.{Action}
use spop.Request.{Request}
use spop.Transport.{NetConn, Conn, close_conn, read_deadline}
use spop.Frame.{Frame, new_frame, from_haproxy}
use spop.Frame.Read.{Source, read_limit}
use spop.Handshake.{
  string_item, version_supported, agreed, negotiate, closed_by_server, status_normal,
}
use spop.Worker.{
  Setting, Worker, frame_limit, send_agent_hello, send_agent_disconnect, write_ack, ack_frame,
}
use spop.Worker.Loop.{
  Phase, arming, reading, dispatching, closing, set_deadline, dispatch, take_hello, hello_answered,
  hello_agreed, take_notify, acquire_slot, take_disconnect, disconnect_sent,
}
use spop.Worker.Machine.{Task, leaving, Machine, loop_turn, answer, turns, Reach, onwards}
use spop.Client.Turns.{
  Obliging, Up, Delivered, listening, arm_turn-listening, read_turn-dispatching,
}
use spop.Client.Wire.{hello_received, notify_received, goodbye_received}

hello_negotiated : negotiate hello_received ≡ agreed (16 * 1024)
unfolding negotiate string_item version_supported cut split trim_space atoi get eq_bytes
hello_negotiated = refl

-- Up and past the handshake with the client, with so many slots taken.
pub record Ready (sent : List (List ℕ)) (slots : ℕ) (w : Worker) : Type 0 where
  pub up : Up sent w
  pub is_ready : w.ready ≡ true
  pub agreed_size : w.max_frame ≡ 16 * 1024
  pub taken : w.slots ≡ slots

pub record-Up :
    {sent : List (List ℕ)} (ready : Bool) (size slots : ℕ) (engine_id : List ℕ) (w : Worker)
    → Up sent w
    → Up sent (record w { ready = ready; max_frame = size; engine_id = engine_id; slots = slots })
record-Up ready size slots engine_id w u = record {
  not_closed = u.not_closed;
  not_done = u.not_done;
  not_panicked = u.not_panicked;
  not_parted = u.not_parted;
  carried = u.carried;
}

pub Delivered-Up :
    {sent : List (List ℕ)} {bytes : List ℕ} {w : Worker} {out : Worker × Result (Unit {0})}
    → Up sent w
    → Delivered bytes w out
    → Up (bytes ∷ sent) out.0
Delivered-Up {bytes = bytes} u d = record {
  not_closed = d.not_closed ∙ u.not_closed;
  not_done = ap (λ v. v.done) d.same ∙ u.not_done;
  not_panicked = ap (λ v. v.panicked) d.same ∙ u.not_panicked;
  not_parted = ap (λ v. v.goodbye_sent) d.same ∙ u.not_parted;
  carried = d.carried ∙ ap (λ l. bytes ∷ l) u.carried;
}

pub close_conn-closed : (net : NetConn) (c : Conn) → (close_conn net c).0.closed ≡ true
unfolding close_conn
close_conn-closed net c = ground arith

module _ (s : Setting) where
  pub hello_dispatched :
      (v : Worker) (out : Worker × Result (Unit {0}))
      → v.ready ≡ false
      → send_agent_hello s (16 * 1024) (record v { max_frame = 16 * 1024; engine_id = [] }) ≡ out
      → out.1 ≡ ok tt
      → dispatch s hello_received v ≡ (record out.0 { ready = true }, arming)
  unfolding dispatch take_hello hello_answered hello_agreed
  hello_dispatched v out fresh e k = ground (arith, fresh, hello_negotiated, e, k)

  pub disconnect_dispatched :
      (v : Worker) (out : Worker × Result (Unit {0}))
      → v.ready ≡ true
      → send_agent_disconnect s status_normal closed_by_server v ≡ out
      → out.1 ≡ ok tt
      → dispatch s goodbye_received v ≡ (out.0, closing none)
  unfolding dispatch take_disconnect disconnect_sent
  disconnect_dispatched v out greeted e k = ground (arith, greeted, e, k)

  pub notify_dispatched :
      (v : Worker)
      → v.ready ≡ true
      → dispatch s notify_received v ≡ (v, acquire_slot s notify_received v)
  unfolding dispatch take_notify
  notify_dispatched v greeted = ground (arith, greeted)

  pub answer-leaving :
      (f : Frame) (actions : List Action) (v : Worker) (out : Worker × Result (Unit {0}))
      → write_ack s (ack_frame f actions) v ≡ out
      → out.1 ≡ ok tt
      → answer s f actions v ≡ (out.0, leaving)
  unfolding answer
  answer-leaving f actions v out e k = ground (arith, e, k)

module _ (s : Setting) (o : Obliging s.net) {handler : Request → List Action → Type 0}
    {whole : Source} where
  pub turned :
      (m m' : Machine)
      → Reach s handler whole m
      → m.worker.panicked ≡ false
      → loop_turn s false m ≡ m'
      → Reach s handler whole m'
  turned m m' r sound e = subst (Reach s handler whole) e (onwards r (turns false sound))

  -- A frame is read and dispatched.
  pub hears :
      {sent : List (List ℕ)} (w w' : Worker) (src src' : Source) (f : Frame) (p : Phase)
      (tasks : List Task)
      → Reach s handler whole (record { worker = w; source = src; phase = arming; tasks = tasks })
      → Up sent w
      → read_limit new_frame src (frame_limit w) (some from_haproxy) ≡ ok (f, src')
      → dispatch s f (listening s o w) ≡ (w', p)
      → Reach s handler whole (record { worker = w'; source = src'; phase = p; tasks = tasks })
  unfolding loop_turn frame_limit set_deadline read_deadline
  hears w w' src src' f p tasks r u e d =
      let v = listening s o w in
      let armed =
        turned (record { worker = w; source = src; phase = arming; tasks = tasks })
          (record { worker = v; source = src; phase = reading; tasks = tasks }) r u.not_panicked
          (ground (arith, arm_turn-listening s o w u.not_done)) in
      let heard =
        turned (record { worker = v; source = src; phase = reading; tasks = tasks })
          (record { worker = v; source = src'; phase = dispatching f; tasks = tasks }) armed
          u.not_panicked (ground (arith, read_turn-dispatching s o f src src' v e)) in
      turned (record { worker = v; source = src'; phase = dispatching f; tasks = tasks })
        (record { worker = w'; source = src'; phase = p; tasks = tasks }) heard u.not_panicked
        (ground (arith, d))
