-- ===== src/Worker/Answering.antt =====
-- The end of `processNotifyFrame`: what the switch over the error of `writeFrame` makes of the write.
use spop.Base.{◌≡◌, refl, sym, subst, List, Result, ok, err, fault, Error}
use spop.Action.{Action}
use spop.Frame.{Frame}
use spop.Worker.{Setting, Worker, write_ack, ack_frame}
use spop.Worker.Machine.{Task, leaving, report_of, answer}
use spop.Worker.Sending.{write_ack_same}

-- The switch leaves the worker as the write did.
pub answer-write_ack :
    (s : Setting) (f : Frame) (actions : List Action) (w : Worker)
    → (answer s f actions w).0 ≡ (write_ack s (ack_frame f actions) w).0
unfolding answer
answer-write_ack s f actions w = go (write_ack s (ack_frame f actions) w)
  where
    outcome : Worker × Result (Unit {0}) → Worker × Task
    outcome (w', ok _) = (w', leaving)
    outcome (w', err e) = (w', report_of e)
    outcome (w', fault x) = (w', leaving)

    go : (out : Worker × Result (Unit {0})) → (outcome out).0 ≡ out.0
    go (w', ok _) = refl
    go (w', err e) = refl
    go (w', fault x) = refl

-- The handler's goroutine goes on to leave or to a report.
pub answer-task :
    (P : Task → Type 0) (s : Setting) (f : Frame) (actions : List Action) (w : Worker)
    → P leaving
    → ((e : Error) → P (report_of e))
    → P (answer s f actions w).1
unfolding answer
answer-task P s f actions w l r = go (write_ack s (ack_frame f actions) w)
  where
    outcome : Worker × Result (Unit {0}) → Worker × Task
    outcome (w', ok _) = (w', leaving)
    outcome (w', err e) = (w', report_of e)
    outcome (w', fault x) = (w', leaving)

    go : (out : Worker × Result (Unit {0})) → P (outcome out).1
    go (w', ok _) = l
    go (w', err e) = r e
    go (w', fault x) = l

-- Nothing but the connection has changed.
pub answer_same :
    (s : Setting) (f : Frame) (actions : List Action) (w : Worker)
    → (answer s f actions w).0 ≡ record w {
      conn = (answer s f actions w).0.conn;
      panicked = (answer s f actions w).0.panicked;
    }
answer_same s f actions w =
    subst (λ v. v ≡ record w { conn = v.conn; panicked = v.panicked })
      (sym (answer-write_ack s f actions w)) (write_ack_same s (ack_frame f actions) w)
