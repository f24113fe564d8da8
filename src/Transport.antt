-- ===== src/Transport.antt =====
-- transport/conn.go: one connection to a peer. The `net.Conn` below it is a parameter: what it
-- answers may depend on every call made so far. Here each operation runs at once, as the locks have
-- it for two writers; Lives has its steps, as `Close` and the deadlines of others may come in between.
pub mod Calls
pub mod Lives
pub mod Closing
pub mod Alone
mod Runs
use spop.Base.{
  ℕ, zero, suc, ◌+◌, Bool, true, false, List, [], ◌∷◌, Option, none, some, Error, ◌==◌,
  if◌then◌else◌, length, ℤ, pos, negsuc, connection_closed, short_write,
}

-- A deadline is a time, or `none` for the zero time, which clears it.
pub data Call : Type 0 where
  write : List ℕ → Call
  close : Call
  set_write_deadline set_read_deadline : Option ℕ → Call

-- The answers of a `net.Conn` after the calls made so far, of which the latest comes first.
pub record NetConn : Type 0 where
  pub on_write : List Call → List ℕ → ℕ × Option Error
  pub on_close : List Call → Option Error
  pub on_write_deadline : List Call → Option ℕ → Option Error
  pub on_read_deadline : List Call → Option ℕ → Option Error

pub record Conn : Type 0 where
  pub calls : List Call
  pub closed : Bool
  pub write_timeout : ℤ

-- `NewConn`
abbrev pub new_conn : Conn
new_conn = record { calls = []; closed = false; write_timeout = pos 0 }

-- What `WritePayload` is given: it may write to the connection.
abbrev pub Payload : Type 0
Payload = NetConn → List Call → List Call × Option Error

-- The callback under the deadline of a positive timeout, and its deferred clearing.
unfoldable pub write_before : NetConn → ℕ → Payload → Conn → Conn × Option Error
write_before net deadline fn c =
    let armed = set_write_deadline (some deadline) ∷ c.calls in
    let (calls, e) = fn net armed in
    elim (net.on_write_deadline c.calls (some deadline)) [
      | some refused ↦ (record c { calls = armed }, some refused)
      | none ↦ (record c { calls = set_write_deadline none ∷ calls }, e)
    ]

unfoldable pub write_within : NetConn → ℕ → ℤ → Payload → Conn → Conn × Option Error
unfolding write_before
write_within net now (pos (suc d)) fn c = write_before net (now + suc d) fn c
write_within net now _ fn c = let (calls, e) = fn net c.calls in (record c { calls = calls }, e)

-- `WritePayload`
unfoldable pub write_payload : NetConn → ℕ → Payload → Conn → Conn × Option Error
unfolding write_within
write_payload net now fn c =
    if c.closed then (c, some connection_closed) else write_within net now c.write_timeout fn c

unfoldable pub after_write : ℕ → ℕ × Option Error → Option Error
after_write size (n, some e) = some e
after_write size (n, none) = if n == size then none else some short_write

-- The callback of `WriteFrame`.
unfoldable pub write_all : List ℕ → Payload
unfolding after_write
write_all frame net calls =
    (write frame ∷ calls, after_write (length frame) (net.on_write calls frame))

-- `WriteFrame`
unfoldable pub write_frame : NetConn → ℕ → List ℕ → Conn → Conn × Option Error
write_frame net now frame c = write_payload net now (write_all frame) c

-- `Close`
unfoldable pub close_conn : NetConn → Conn → Conn × Option Error
close_conn net c =
    if c.closed
    then (c, none)
    else (record c { calls = close ∷ c.calls; closed = true }, net.on_close c.calls)

-- `IsClosed`
unfoldable pub is_closed : Conn → Bool
is_closed c = c.closed

-- `SetWriteTimeout`
unfoldable pub set_write_timeout : ℤ → Conn → Conn
set_write_timeout d c = record c { write_timeout = d }

-- `SetReadDeadline`
unfoldable pub read_deadline : NetConn → Option ℕ → Conn → Conn × Option Error
read_deadline net t c =
    (record c { calls = set_read_deadline t ∷ c.calls }, net.on_read_deadline c.calls t)
