-- ===== src/Client/Turns.antt =====
-- The turns of a worker whose connection takes everything, one frame of the peer at a time.
use spop.Base.{
  ℕ, zero, suc, ◌≡◌, refl, sym, ap, subst, false, List, ◌∷◌, Option, none, some, Result, ok, Error,
  arith, length, ==-refl, ℤ, pos, negsuc, ltb, ◌+◌,
}
use spop.Transport.{
  NetConn, Conn, Call, set_write_deadline, write_frame, write_payload, write_within, write_before,
  write_all, read_deadline, after_write,
}
use spop.Transport.Calls.{writes}
use spop.Frame.{Frame, new_frame, from_haproxy}
use spop.Frame.Read.{Source, read_limit}
use spop.Frame.Encode.{to_buffer}
use spop.Worker.{
  Setting, Worker, frame_limit, read_timeout, send_bytes, send_frame, as_result, write_ack,
  length_field,
}
use spop.Worker.Loop.{
  reading, dispatching, set_deadline, deadline_of, arm_read_deadline, arm_turn, read_turn,
}
use spop.Client.Sending.{TakesAll}

-- The net.Conn takes every write and every deadline.
pub record Obliging (net : NetConn) : Type 0 where
  pub takes : TakesAll net
  pub takes_write_deadline :
      (calls : List Call) (t : Option ℕ) → net.on_write_deadline calls t ≡ none
  pub takes_read_deadline : (calls : List Call) (t : Option ℕ) → net.on_read_deadline calls t ≡ none

-- A connection that is up and has carried the frames, the latest first.
pub record Up (sent : List (List ℕ)) (w : Worker) : Type 0 where
  pub not_closed : w.conn.closed ≡ false
  pub not_done : w.done ≡ false
  pub not_panicked : w.panicked ≡ false
  pub not_parted : w.goodbye_sent ≡ false
  pub carried : writes w.conn.calls ≡ sent

-- What is written, when the connection was open.
record Written (bytes : List ℕ) (c : Conn) (out : Conn × Option Error) : Type 0 where
  carried : writes out.0.calls ≡ bytes ∷ writes c.calls
  no_error : out.1 ≡ none
  not_closed : out.0.closed ≡ c.closed

write_all-taken :
    (net : NetConn) (bytes : List ℕ) (calls : List Call)
    → TakesAll net
    → (write_all bytes net calls).1 ≡ none
unfolding write_all after_write
write_all-taken net bytes calls takes = ground (arith, takes calls bytes, ==-refl (length bytes))

write_before-Written :
    (net : NetConn) (deadline : ℕ) (bytes : List ℕ) (c : Conn)
    → Obliging net
    → Written bytes c (write_before net deadline (write_all bytes) c)
unfolding write_before write_all
write_before-Written net deadline bytes c o =
    go (net.on_write_deadline c.calls (some deadline))
      (o.takes_write_deadline c.calls (some deadline))
  where
    armed : List Call
    armed = set_write_deadline (some deadline) ∷ c.calls

    outcome : Option Error → Conn × Option Error
    outcome (some refused) = (record c { calls = armed }, some refused)
    outcome none = (
      record c { calls = set_write_deadline none ∷ (write_all bytes net armed).0 },
      (write_all bytes net armed).1,
    )

    go : (e : Option Error) → e ≡ none → Written bytes c (outcome e)
    go (some refused) e = cc
    go none e = record {
      carried = refl;
      no_error = write_all-taken net bytes armed o.takes;
      not_closed = refl;
    }

write_within-Written :
    (net : NetConn) (now : ℕ) (d : ℤ) (bytes : List ℕ) (c : Conn)
    → Obliging net
    → Written bytes c (write_within net now d (write_all bytes) c)
unfolding write_within write_all
write_within-Written net now (pos (suc d)) bytes c o =
    write_before-Written net (now + suc d) bytes c o
write_within-Written net now (pos zero) bytes c o = record {
  carried = refl;
  no_error = write_all-taken net bytes c.calls o.takes;
  not_closed = refl;
}
write_within-Written net now (negsuc d) bytes c o = record {
  carried = refl;
  no_error = write_all-taken net bytes c.calls o.takes;
  not_closed = refl;
}

write_frame-live :
    (net : NetConn) (now : ℕ) (bytes : List ℕ) (c : Conn)
    → c.closed ≡ false
    → write_frame net now bytes c ≡ write_within net now c.write_timeout (write_all bytes) c
unfolding write_frame write_payload
write_frame-live net now bytes c live = ground (arith, live)

write_frame-Written :
    (net : NetConn) (now : ℕ) (bytes : List ℕ) (c : Conn)
    → Obliging net
    → c.closed ≡ false
    → Written bytes c (write_frame net now bytes c)
write_frame-Written net now bytes c o live =
    subst (Written bytes c) (sym (write_frame-live net now bytes c live))
      (write_within-Written net now c.write_timeout bytes c o)

-- Bytes that are sent change the connection and nothing else.
pub record Delivered (bytes : List ℕ) (w : Worker) (out : Worker × Result (Unit {0})) : Type 0 where
  pub carried : writes out.0.conn.calls ≡ bytes ∷ writes w.conn.calls
  pub no_error : out.1 ≡ ok tt
  pub not_closed : out.0.conn.closed ≡ w.conn.closed
  pub same : out.0 ≡ record w { conn = out.0.conn }

module _ (s : Setting) (o : Obliging s.net) where
  send_bytes-Delivered :
      (bytes : List ℕ) (w : Worker)
      → w.conn.closed ≡ false
      → Delivered bytes w (send_bytes s bytes w)
  unfolding send_bytes as_result
  send_bytes-Delivered bytes w live =
      let h : Written bytes w.conn (write_frame s.net (s.clock w.conn.calls) bytes w.conn) =
        write_frame-Written s.net (s.clock w.conn.calls) bytes w.conn o live in
      record {
        carried = h.carried;
        no_error = ap as_result h.no_error;
        not_closed = h.not_closed;
        same = refl;
      }

  send_frame-bytes :
      (f : Frame) (bytes : List ℕ) (w : Worker)
      → to_buffer f ≡ ok bytes
      → send_frame s f w ≡ send_bytes s bytes w
  unfolding send_frame
  send_frame-bytes f bytes w b = ground (arith, b)

  write_ack-bytes :
      (f : Frame) (bytes : List ℕ) (w : Worker)
      → to_buffer f ≡ ok bytes
      → ltb (frame_limit w) (length_field bytes) ≡ false
      → w.goodbye_sent ≡ false
      → write_ack s f w ≡ send_bytes s bytes w
  unfolding write_ack
  write_ack-bytes f bytes w b fits quiet = ground (arith, b, fits, quiet)

  pub send_frame-Delivered :
      (f : Frame) (bytes : List ℕ) (w : Worker)
      → to_buffer f ≡ ok bytes
      → w.conn.closed ≡ false
      → Delivered bytes w (send_frame s f w)
  send_frame-Delivered f bytes w b live =
      subst (Delivered bytes w) (sym (send_frame-bytes f bytes w b))
        (send_bytes-Delivered bytes w live)

  pub write_ack-Delivered :
      (f : Frame) (bytes : List ℕ) (w : Worker)
      → to_buffer f ≡ ok bytes
      → ltb (frame_limit w) (length_field bytes) ≡ false
      → w.conn.closed ≡ false
      → w.goodbye_sent ≡ false
      → Delivered bytes w (write_ack s f w)
  write_ack-Delivered f bytes w b fits live quiet =
      subst (Delivered bytes w) (sym (write_ack-bytes f bytes w b fits quiet))
        (send_bytes-Delivered bytes w live)

  -- The worker, its deadline set, as it reads.
  abbrev pub listening : Worker → Worker
  listening w = (set_deadline s (deadline_of (s.clock w.conn.calls) (read_timeout s w)) w).0

  pub arm_turn-listening :
      (w : Worker) → w.done ≡ false → arm_turn s false w ≡ (listening w, reading)
  unfolding arm_turn arm_read_deadline set_deadline read_deadline
  arm_turn-listening w going = ground (
    arith,
    going,
    o.takes_read_deadline w.conn.calls (deadline_of (s.clock w.conn.calls) (read_timeout s w)),
  )

  pub read_turn-dispatching :
      (f : Frame) (src src' : Source) (w : Worker)
      → read_limit new_frame src (frame_limit w) (some from_haproxy) ≡ ok (f, src')
      → read_turn s src w ≡ (w, src', dispatching f)
  unfolding read_turn
  read_turn-dispatching f src src' w e = ground (arith, e)

  pub listening-Up : {sent : List (List ℕ)} (w : Worker) → Up sent w → Up sent (listening w)
  unfolding set_deadline read_deadline
  listening-Up w u = record {
    not_closed = u.not_closed;
    not_done = u.not_done;
    not_panicked = u.not_panicked;
    not_parted = u.not_parted;
    carried = u.carried;
  }
