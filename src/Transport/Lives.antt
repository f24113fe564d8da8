-- ===== src/Transport/Lives.antt =====
-- transport/conn.go as its goroutines interleave: a payload of one frame goes out in steps between
-- which `Close`, the timeouts and the deadlines of others may come, as only writers share `writeMu`.
use spop.Base.{
  ℕ, suc, ◌+◌, ◌≡◌, Bool, true, false, List, ◌∷◌, Option, none, some, Error, ℤ, pos, if◌then◌else◌,
}
use spop.Transport.{
  Call, write, close, set_write_deadline, set_read_deadline, NetConn, Conn, new_conn,
}

-- Where the holder of `writeMu` stands in `WritePayload`: before `IsClosed`, behind it, with a
-- positive timeout, before its `Write` (with a deadline set or not), and before its deferred
-- clearing of the deadline.
pub data Writing : Type 0 where
  idle : Writing
  locked admitted : List ℕ → Writing
  timed : ℕ → List ℕ → Writing
  writing : Bool → List ℕ → Writing
  clearing : Writing

-- `closing`: a call of `Close` has set `closed` and not yet closed the net.Conn.
pub record Life : Type 0 where
  pub conn : Conn
  pub writer : Writing
  pub closing : Bool

abbrev pub new_life : Life
new_life = record { conn = new_conn; writer = idle; closing = false }

abbrev pub called : Call → Conn → Conn
called call c = record c { calls = call ∷ c.calls }

-- The timeout that `WriteTimeout` found.
abbrev pub after_timeout : ℤ → List ℕ → Writing
after_timeout (pos (suc d)) frame = timed (suc d) frame
after_timeout _ frame = writing false frame

-- What the net.Conn answered to the deadline.
abbrev pub after_arming : Option Error → List ℕ → Writing
after_arming none frame = writing true frame
after_arming (some e) frame = idle

-- One step of one goroutine. A call of `Close` on a connection that is closed makes none.
pub data Step (net : NetConn) (x : Life) : Life → Type 0 where
  locks : (frame : List ℕ) → x.writer ≡ idle → Step net x (record x { writer = locked frame })
  finds_closed :
      (frame : List ℕ)
      → x.writer ≡ locked frame
      → x.conn.closed ≡ true
      → Step net x (record x { writer = idle })
  finds_open :
      (frame : List ℕ)
      → x.writer ≡ locked frame
      → x.conn.closed ≡ false
      → Step net x (record x { writer = admitted frame })
  reads_timeout :
      (frame : List ℕ)
      → x.writer ≡ admitted frame
      → Step net x (record x { writer = after_timeout x.conn.write_timeout frame })
  arms :
      (now d : ℕ) (frame : List ℕ)
      → x.writer ≡ timed d frame
      → Step net x (record x {
        conn = called (set_write_deadline (some (now + d))) x.conn;
        writer = after_arming (net.on_write_deadline x.conn.calls (some (now + d))) frame;
      })
  writes :
      (armed : Bool) (frame : List ℕ)
      → x.writer ≡ writing armed frame
      → Step net x (record x {
        conn = called (write frame) x.conn;
        writer = if armed then clearing else idle;
      })
  clears :
      x.writer ≡ clearing
      → Step net x (record x { conn = called (set_write_deadline none) x.conn; writer = idle })
  marks_closed :
      x.conn.closed ≡ false
      → Step net x (record x { conn = record x.conn { closed = true }; closing = true })
  closes : x.closing ≡ true → Step net x (record x { conn = called close x.conn; closing = false })
  sets_timeout : (d : ℤ) → Step net x (record x { conn = record x.conn { write_timeout = d } })
  sets_read_deadline :
      (t : Option ℕ) → Step net x (record x { conn = called (set_read_deadline t) x.conn })

-- What a connection can get to, in any interleaving and whatever the net.Conn answers.
pub data Reach (net : NetConn) : Life → Type 0 where
  start : Reach net new_life
  onwards : {x y : Life} → Reach net x → Step net x y → Reach net y

-- Several steps.
pub data Steps (net : NetConn) (x : Life) : Life → Type 0 where
  none_taken : Steps net x x
  taken : {y z : Life} → Steps net x y → Step net y z → Steps net x z
