-- ===== src/Worker/Progress.antt =====
-- Every move of a connection's goroutines counts, and none of them panics.
use spop.Base.{
  ◌+◌, ◌≤◌, ◌<◌, ◌≡◌, refl, ap, subst, ◌∙◌, Bool, true, not, List, ◌∷◌, ◌++◌, All, IsByte, arith,
  length, Error, cannot_encode, frame_too_big, after_disconnect,
}
use spop.Action.{Action}
use spop.Request.{Request}
use spop.Frame.{Frame}
use spop.Frame.Read.{Source}
use spop.Worker.{Setting, Worker, disconnect_once, close_worker}
use spop.Worker.Loop.{
  Phase, arming, reading, dispatching, parked, starting, draining, closing, stopped,
}
use spop.Worker.Answering.{answer-task}
use spop.Worker.Machine.{
  Task, handling, reporting, tearing_down, leaving, Machine, report_of, answer, release_slot,
  loop_turn, Step, turns, unparks, gives_up, drains, answers, reports, tears_down, leaves,
  begins_drain, pokes, closes_all, Reach, start, onwards,
}
use spop.Worker.Sound.{MakesStrings, LeavesGoValues, disconnect_once_panicked, answer_panicked}
use spop.Worker.Moves.{rank, PhaseSound, dispatch-Moved}
use spop.Worker.Reads.{MovedOn, moved_on, arm_turn-Moved, read_turn-MovedOn, expire_panicked}
use spop.Worker.Work.{
  task_rank, load, work, waits, is_move, moves, TaskSound, Sound, load-middle, All-middle, Advances,
}

report_of-Sound : (e : Error) → TaskSound (report_of e) × (task_rank (report_of e) ≤ 3)
unfolding report_of
report_of-Sound after_disconnect = (tt, omega arith)
report_of-Sound (frame_too_big size limit) = (omega arith, omega arith)
report_of-Sound (cannot_encode e) = (omega arith, omega arith)
report_of-Sound e = (omega arith, omega arith)

answer-TaskSound :
    (s : Setting) (f : Frame) (actions : List Action) (w : Worker)
    → TaskSound (answer s f actions w).1 × (task_rank (answer s f actions w).1 ≤ 3)
answer-TaskSound s f actions w =
    answer-task (λ t. TaskSound t × (task_rank t ≤ 3)) s f actions w (tt, omega arith)
      report_of-Sound

from_move :
    {s : Setting} {w : Worker} {src : Source} {p : Phase} {out : Worker × Source × Phase}
    {tasks : List Task}
    → MovedOn s w (length src.input + rank p) out
    → Sound s (record { worker = w; source = src; phase = p; tasks = tasks })
    → Advances s
        (record { worker = w; source = src; phase = p; tasks = tasks })
        (record { worker = out.0; source = out.1; phase = out.2; tasks = tasks })
        true
from_move a h = record {
  sound = record {
    not_panicked = a.same_panicked ∙ h.not_panicked;
    bytes = a.bytes;
    phase_sound = a.phase_sound;
    tasks_sound = h.tasks_sound;
  };
  counts = omega (arith, a.less);
}

turn-Advances :
    (s : Setting) (later : Bool) (w : Worker) (src : Source) (p : Phase) (tasks : List Task)
    → MakesStrings s
    → Sound s (record { worker = w; source = src; phase = p; tasks = tasks })
    → Advances s
        (record { worker = w; source = src; phase = p; tasks = tasks })
        (loop_turn s later (record { worker = w; source = src; phase = p; tasks = tasks }))
        (not (waits p))
unfolding loop_turn close_worker
turn-Advances s later w src arming tasks texts h =
    from_move (moved_on src h.bytes (arm_turn-Moved s later w)) h
turn-Advances s later w src reading tasks texts h =
    from_move (read_turn-MovedOn s src w texts h.bytes) h
turn-Advances s later w src (dispatching f) tasks texts h =
    from_move (moved_on src h.bytes (dispatch-Moved s texts f w h.phase_sound)) h
turn-Advances s later w src (starting f) tasks texts h = record {
  sound = record {
    not_panicked = h.not_panicked;
    bytes = h.bytes;
    phase_sound = tt;
    tasks_sound = (h.phase_sound, h.tasks_sound);
  };
  counts = omega arith;
}
turn-Advances s later w src (closing r) tasks texts h = record {
  sound = record {
    not_panicked = h.not_panicked;
    bytes = h.bytes;
    phase_sound = tt;
    tasks_sound = h.tasks_sound;
  };
  counts = omega arith;
}
turn-Advances s later w src (parked f) tasks texts h = record { sound = h; counts = omega arith }
turn-Advances s later w src draining tasks texts h = record { sound = h; counts = omega arith }
turn-Advances s later w src (stopped r) tasks texts h = record { sound = h; counts = omega arith }

-- A task ran and became another that is nearer to its end.
task-Advances :
    (s : Setting) (m : Machine) (w : Worker) (before after : List Task) (t u : Task)
    → Sound s m
    → m.tasks ≡ before ++ t ∷ after
    → w.panicked ≡ m.worker.panicked
    → TaskSound u
    → task_rank u < task_rank t
    → Advances s m (record m { worker = w; tasks = before ++ u ∷ after }) true
task-Advances s m w before after t u h e same hu lower =
    let (ht, rest, put) = All-middle before after t (subst (All TaskSound) e h.tasks_sound) in
    record {
      sound = record {
        not_panicked = same ∙ h.not_panicked;
        bytes = h.bytes;
        phase_sound = h.phase_sound;
        tasks_sound = put u hu;
      };
      counts = omega (arith, load-middle before after t, load-middle before after u, ap load e);
    }

release_slot_panicked : (s : Setting) (w : Worker) → (release_slot s w).panicked ≡ w.panicked
unfolding release_slot
release_slot_panicked s w = ground arith

module _ {s : Setting} {handler : Request → List Action → Type 0} (texts : MakesStrings s)
    (go_values : LeavesGoValues handler) where
  pub Step-Advances :
      {m m' : Machine} → Sound s m → (st : Step s handler m m') → Advances s m m' (is_move st)
  Step-Advances {m = m} h (turns later _) =
      turn-Advances s later m.worker m.source m.phase m.tasks texts h
  Step-Advances {m = m} h (unparks f limit _ p e room) = record {
    sound = record {
      not_panicked = h.not_panicked;
      bytes = h.bytes;
      phase_sound = (subst (PhaseSound s) p h.phase_sound).0;
      tasks_sound = h.tasks_sound;
    };
    counts = omega (arith, ap rank p);
  }
  Step-Advances {m = m} h (gives_up f _ p d) = record {
    sound = record {
      not_panicked = h.not_panicked;
      bytes = h.bytes;
      phase_sound = tt;
      tasks_sound = h.tasks_sound;
    };
    counts = omega (arith, ap rank p);
  }
  Step-Advances {m = m} h (drains _ p e) = record {
    sound = record {
      not_panicked = disconnect_once_panicked s _ _ m.worker texts (omega arith) ∙ h.not_panicked;
      bytes = h.bytes;
      phase_sound = tt;
      tasks_sound = h.tasks_sound;
    };
    counts = omega (arith, ap rank p);
  }
  Step-Advances {m = m} h (answers f before after actions _ e allowed) =
      let words =
        (All-middle before after (handling f) (subst (All TaskSound) e h.tasks_sound)).0 in
      let (hu, lower) = answer-TaskSound s f actions m.worker in
      task-Advances s m (answer s f actions m.worker).0 before after (handling f)
        (answer s f actions m.worker).1 h e
        (answer_panicked s f actions m.worker words (go_values _ actions allowed)) hu
        (omega (arith, lower))
  Step-Advances {m = m} h (reports code notice before after _ e) =
      let word =
        (All-middle before after (reporting code notice)
          (subst (All TaskSound) e h.tasks_sound)).0 in
      task-Advances s m (disconnect_once s code notice m.worker) before after
        (reporting code notice) tearing_down h e
        (disconnect_once_panicked s code notice m.worker texts word) tt (omega arith)
  Step-Advances {m = m} h (tears_down before after _ e) =
      task-Advances s m (close_worker s m.worker) before after tearing_down leaving h e
        (unfold close_worker in refl) tt (omega arith)
  Step-Advances {m = m} h (leaves before after _ e) =
      let (_, rest, put) =
        All-middle before after leaving (subst (All TaskSound) e h.tasks_sound) in
      record {
        sound = record {
          not_panicked = release_slot_panicked s m.worker ∙ h.not_panicked;
          bytes = h.bytes;
          phase_sound = h.phase_sound;
          tasks_sound = rest;
        };
        counts = omega (arith, load-middle before after leaving, ap load e);
      }
  Step-Advances h begins_drain = record {
    sound = record {
      not_panicked = h.not_panicked;
      bytes = h.bytes;
      phase_sound = h.phase_sound;
      tasks_sound = h.tasks_sound;
    };
    counts = omega arith;
  }
  Step-Advances {m = m} h (pokes d) = record {
    sound = record {
      not_panicked = expire_panicked s m.worker ∙ h.not_panicked;
      bytes = h.bytes;
      phase_sound = h.phase_sound;
      tasks_sound = h.tasks_sound;
    };
    counts = omega arith;
  }
  Step-Advances {m = m} h (closes_all d) = record {
    sound = record {
      not_panicked = unfold close_worker in h.not_panicked;
      bytes = h.bytes;
      phase_sound = h.phase_sound;
      tasks_sound = h.tasks_sound;
    };
    counts = omega arith;
  }

  pub Reach-Sound :
      {src : Source} {m : Machine} → All IsByte src.input → Reach s handler src m → Sound s m
  Reach-Sound bytes start = record {
    not_panicked = refl;
    bytes = bytes;
    phase_sound = tt;
    tasks_sound = tt;
  }
  Reach-Sound bytes (onwards r st) = (Step-Advances (Reach-Sound bytes r) st).sound

  pub Reach-counts :
      {src : Source} {m : Machine}
      → All IsByte src.input
      → (r : Reach s handler src m) → moves r + work m ≤ length src.input + 4
  Reach-counts bytes start = omega arith
  Reach-counts bytes (onwards r st) =
      omega (arith, Reach-counts bytes r, (Step-Advances (Reach-Sound bytes r) st).counts)
