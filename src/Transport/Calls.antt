-- ===== src/Transport/Calls.antt =====
-- The calls that a connection makes on its net.Conn.
use spop.Base.{
  ℕ, zero, suc, ◌+◌, ◌≡◌, refl, Bool, true, false, List, [], ◌∷◌, Option, none, some, Error, ◌⊎◌,
  inl, inr, length, ℤ, pos, negsuc, arith, connection_closed, if◌then◌else◌,
}
use spop.Transport.{
  Call, write, set_write_deadline, NetConn, Conn, write_before, write_within, write_payload,
  after_write, write_all, write_frame,
}

-- The frames that were handed to the net.Conn, the latest first.
abbrev pub writes : List Call → List (List ℕ)
writes [] = []
writes (write frame ∷ calls) = frame ∷ writes calls
writes (_ ∷ calls) = writes calls

-- The write deadline that stands after the calls.
abbrev pub write_deadline : List Call → Option ℕ
write_deadline [] = none
write_deadline (set_write_deadline t ∷ calls) = t
write_deadline (_ ∷ calls) = write_deadline calls

-- The net.Conn took all of the frame at one point of the calls.
pub data Took (net : NetConn) (frame : List ℕ) : List Call → Type 0 where
  took_now :
      {calls : List Call}
      → net.on_write calls frame ≡ (length frame, none)
      → Took net frame (write frame ∷ calls)
  took_before :
      {call : Call} {calls : List Call} → Took net frame calls → Took net frame (call ∷ calls)

pub record Sends (net : NetConn) (frame : List ℕ) (c c' : Conn) (e : Option Error) : Type 0 where
  pub grows : (writes c'.calls ≡ writes c.calls) ⊎ (writes c'.calls ≡ frame ∷ writes c.calls)
  pub delivers : e ≡ none → (writes c'.calls ≡ frame ∷ writes c.calls) × Took net frame c'.calls
  pub silent : c.closed ≡ true → (c' ≡ c) × (e ≡ some connection_closed)
  pub same_state : (c'.closed ≡ c.closed) × (c'.write_timeout ≡ c.write_timeout)

write_all_took :
    (net : NetConn) (frame : List ℕ) (calls : List Call)
    → (write_all frame net calls).1 ≡ none
    → net.on_write calls frame ≡ (length frame, none)
unfolding write_all after_write
write_all_took net frame calls e = go (net.on_write calls frame) refl e
  where
    go :
        (r : ℕ × Option Error)
        → net.on_write calls frame ≡ r
        → after_write (length frame) r ≡ none
        → r ≡ (length frame, none)
    go (n, some x) p q = cc
    go (n, none) p q = ground arith

-- Calls that write nothing in front of others make no difference to what was written.
write_plain-Sends :
    (net : NetConn) (frame : List ℕ) (c : Conn)
    → c.closed ≡ false
    → let (calls, e) = write_all frame net c.calls in
      Sends net frame c (record c { calls = calls }) e
unfolding write_all
write_plain-Sends net frame c live = record {
  grows = inr refl;
  delivers = λ e. (refl, took_now (write_all_took net frame c.calls e));
  silent = λ e. cc;
  same_state = (refl, refl);
}

write_before-Sends :
    (net : NetConn) (deadline : ℕ) (frame : List ℕ) (c : Conn)
    → c.closed ≡ false
    → let (c', e) = write_before net deadline (write_all frame) c in Sends net frame c c' e
unfolding write_before write_all
write_before-Sends net deadline frame c live = go (net.on_write_deadline c.calls (some deadline))
  where
    armed : List Call
    armed = set_write_deadline (some deadline) ∷ c.calls

    outcome : Option Error → Conn × Option Error
    outcome (some refused) = (record c { calls = armed }, some refused)
    outcome none = (
      record c { calls = set_write_deadline none ∷ (write_all frame net armed).0 },
      (write_all frame net armed).1,
    )

    go : (r : Option Error) → Sends net frame c (outcome r).0 (outcome r).1
    go (some refused) = record {
      grows = inl refl;
      delivers = λ e. cc;
      silent = λ e. cc;
      same_state = (refl, refl);
    }
    go none = record {
      grows = inr refl;
      delivers = λ e. (refl, took_before (took_now (write_all_took net frame armed e)));
      silent = λ e. cc;
      same_state = (refl, refl);
    }

write_within-Sends :
    (net : NetConn) (now : ℕ) (frame : List ℕ) (d : ℤ) (c : Conn)
    → c.closed ≡ false
    → let (c', e) = write_within net now d (write_all frame) c in Sends net frame c c' e
unfolding write_within
write_within-Sends net now frame (pos (suc d)) c live =
    write_before-Sends net (now + suc d) frame c live
write_within-Sends net now frame (pos zero) c live = write_plain-Sends net frame c live
write_within-Sends net now frame (negsuc d) c live = write_plain-Sends net frame c live

-- `WriteFrame` hands the frame to the net.Conn once or not at all, and reports success only if
-- the net.Conn took every byte of it without an error; on a closed connection it makes no call
-- and reports that. It neither closes the connection nor changes the timeout.
pub write_frame-Sends :
    (net : NetConn) (now : ℕ) (frame : List ℕ) (c : Conn)
    → let (c', e) = write_frame net now frame c in Sends net frame c c' e
unfolding write_frame write_payload
write_frame-Sends net now frame c = go c.closed refl
  where
    outcome : Bool → Conn × Option Error
    outcome b =
        if b
        then (c, some connection_closed)
        else write_within net now c.write_timeout (write_all frame) c

    go : (b : Bool) → c.closed ≡ b → Sends net frame c (outcome b).0 (outcome b).1
    go true shut = record {
      grows = inl refl;
      delivers = λ e. cc;
      silent = λ e. (refl, refl);
      same_state = (refl, refl);
    }
    go false live = write_within-Sends net now frame c.write_timeout c live
