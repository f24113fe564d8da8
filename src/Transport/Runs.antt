-- ===== src/Transport/Runs.antt =====
-- Runs of conn.go at concrete inputs, and its theorems there.
use spop.Base.{true, ◌≡◌, refl, false, [], ◌∷◌, none, some, pos, short_write, length}
use spop.Transport.{
  write, close, set_write_deadline, NetConn, new_conn, write_frame, write_payload, write_all,
  close_conn, set_write_timeout,
}
use spop.Transport.Calls.{Sends, write_frame-Sends}
use spop.Transport.Closing.{IsTidy, Reach-IsTidy}
use spop.Transport.Lives
use spop.Transport.Lives.{
  Life, clearing, sets_timeout, locks, finds_open, reads_timeout, arms, marks_closed, closes,
  writes,
}

-- A peer that takes every byte, and one that takes the first only.
abbrev willing : NetConn
willing = record {
  on_write = λ calls frame. (length frame, none);
  on_close = λ calls. none;
  on_write_deadline = λ calls t. none;
  on_read_deadline = λ calls t. none;
}

abbrev stuck : NetConn
stuck = record willing { on_write = λ calls frame. (1, none) }

frame_in_deadline : write_frame willing 100 (7 ∷ 8 ∷ []) (set_write_timeout (pos 5) new_conn) ≡ (
  record {
    calls = set_write_deadline none ∷ write (7 ∷ 8 ∷ []) ∷ set_write_deadline (some 105) ∷ [];
    closed = false;
    write_timeout = pos 5;
  },
  none,
)
unfolding write_frame write_payload write_all set_write_timeout
frame_in_deadline = refl

short_is_error : (write_frame stuck 100 (7 ∷ 8 ∷ []) new_conn).1 ≡ some short_write
unfolding write_frame write_payload write_all
short_is_error = refl

close_twice : (close_conn willing (close_conn willing new_conn).0).0.calls ≡ close ∷ []
unfolding close_conn
close_twice = refl

write_frame-Sends_example :
    let (c', e) = write_frame stuck 100 (7 ∷ 8 ∷ []) new_conn in
    Sends stuck (7 ∷ 8 ∷ []) new_conn c' e
write_frame-Sends_example = write_frame-Sends stuck 100 (7 ∷ 8 ∷ []) new_conn

-- A connection that is closed after a writer has found it open: its write comes behind the close.
abbrev closed_meanwhile : Life
closed_meanwhile = record {
  conn = record {
    calls = write (7 ∷ []) ∷ close ∷ set_write_deadline (some 105) ∷ [];
    closed = true;
    write_timeout = pos 5;
  };
  writer = clearing;
  closing = false;
}

closed_meanwhile-Reach : Lives.Reach willing closed_meanwhile
closed_meanwhile-Reach =
    let armed =
      Lives.onwards
        (Lives.onwards
          (Lives.onwards
            (Lives.onwards (Lives.onwards Lives.start (sets_timeout (pos 5))) (locks (7 ∷ []) refl))
            (finds_open (7 ∷ []) refl refl))
          (reads_timeout (7 ∷ []) refl))
        (arms 100 5 (7 ∷ []) refl) in
    Lives.onwards (Lives.onwards (Lives.onwards armed (marks_closed refl)) (closes refl))
      (writes true (7 ∷ []) refl)

Reach-IsTidy_example : IsTidy willing closed_meanwhile
Reach-IsTidy_example = Reach-IsTidy willing closed_meanwhile closed_meanwhile-Reach
