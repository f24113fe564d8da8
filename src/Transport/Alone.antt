-- ===== src/Transport/Alone.antt =====
-- An operation of a connection that nothing comes in between is a run of its steps.
use spop.Base.{
  ℕ, zero, suc, ◌+◌, ◌≡◌, refl, Bool, true, false, List, ◌∷◌, Option, none, some, Error, ℤ, pos,
  negsuc, connection_closed, if◌then◌else◌,
}
use spop.Transport.{
  Call, close, set_write_deadline, NetConn, Conn, write_before, write_within, write_payload,
  write_all, write_frame, close_conn,
}
use spop.Transport.Lives.{
  Writing, idle, locked, timed, Life, after_timeout, after_arming, locks, finds_closed, finds_open,
  reads_timeout, arms, writes, clears, marks_closed, closes, Steps, none_taken, taken,
}

abbrev at : Conn → Writing → Bool → Life
at c w b = record { conn = c; writer = w; closing = b }

module _ (net : NetConn) (b : Bool) where
  write_before-Steps :
      (now d : ℕ) (frame : List ℕ) (c : Conn) {x : Life}
      → Steps net x (at c (timed d frame) b)
      → Steps net x (at (write_before net (now + d) (write_all frame) c).0 idle b)
  unfolding write_before write_all
  write_before-Steps now d frame c {x} before =
      go (net.on_write_deadline c.calls (some (now + d))) (taken before (arms now d frame refl))
    where
      armed : List Call
      armed = set_write_deadline (some (now + d)) ∷ c.calls

      outcome : Option Error → Conn × Option Error
      outcome (some refused) = (record c { calls = armed }, some refused)
      outcome none = (
        record c { calls = set_write_deadline none ∷ (write_all frame net armed).0 },
        (write_all frame net armed).1,
      )

      go :
          (r : Option Error)
          → Steps net x (at (record c { calls = armed }) (after_arming r frame) b)
          → Steps net x (at (outcome r).0 idle b)
      go (some refused) h = h
      go none h = taken (taken h (writes true frame refl)) (clears refl)

  write_within-Steps :
      (now : ℕ) (d : ℤ) (frame : List ℕ) (c : Conn) {x : Life}
      → Steps net x (at c (after_timeout d frame) b)
      → Steps net x (at (write_within net now d (write_all frame) c).0 idle b)
  unfolding write_within write_all
  write_within-Steps now (pos (suc d)) frame c h = write_before-Steps now (suc d) frame c h
  write_within-Steps now (pos zero) frame c h = taken h (writes false frame refl)
  write_within-Steps now (negsuc d) frame c h = taken h (writes false frame refl)

  -- `WriteFrame` with no other goroutine in between leaves what `write_frame` says.
  pub write_frame-Steps :
      (now : ℕ) (frame : List ℕ) (c : Conn)
      → Steps net (at c idle b) (at (write_frame net now frame c).0 idle b)
  unfolding write_frame write_payload
  write_frame-Steps now frame c = go c.closed refl
    where
      locked_now : Steps net (at c idle b) (at c (locked frame) b)
      locked_now = taken none_taken (locks frame refl)

      outcome : Bool → Conn × Option Error
      outcome shut =
          if shut
          then (c, some connection_closed)
          else write_within net now c.write_timeout (write_all frame) c

      go : (shut : Bool) → c.closed ≡ shut → Steps net (at c idle b) (at (outcome shut).0 idle b)
      go true e = taken locked_now (finds_closed frame refl e)
      go false e =
          write_within-Steps now c.write_timeout frame c
            (taken (taken locked_now (finds_open frame refl e)) (reads_timeout frame refl))

-- `Close` with no other goroutine in between, and no other call of it under way, leaves what
-- `close_conn` says.
pub close_conn-Steps :
    (net : NetConn) (c : Conn) (w : Writing)
    → Steps net (at c w false) (at (close_conn net c).0 w false)
unfolding close_conn
close_conn-Steps net c w = go c.closed refl
  where
    outcome : Bool → Conn × Option Error
    outcome shut =
        if shut
        then (c, none)
        else (record c { calls = close ∷ c.calls; closed = true }, net.on_close c.calls)

    go : (shut : Bool) → c.closed ≡ shut → Steps net (at c w false) (at (outcome shut).0 w false)
    go true e = none_taken
    go false e = taken (taken none_taken (marks_closed e)) (closes refl)
