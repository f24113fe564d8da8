-- ===== src/Transport/Closing.antt =====
-- The closing and the deadlines of a connection over its life, in every interleaving.
use spop.Base.{
  ℕ, zero, suc, ◌+◌, ◌≤◌, ◌≡◌, ◌≢◌, refl, subst, ap, Bool, true, false, List, [], ◌∷◌, Option, none,
  some, Error, ℤ, pos, negsuc, arith,
}
use spop.Transport.{Call, write, close, set_write_deadline, set_read_deadline, NetConn}
use spop.Transport.Lives.{
  Writing, idle, locked, admitted, timed, writing, clearing, Life, after_timeout, after_arming,
  Step, locks, finds_closed, finds_open, reads_timeout, arms, writes, clears, marks_closed, closes,
  sets_timeout, sets_read_deadline, Reach, start, onwards,
}

abbrev pub bit : Bool → ℕ
bit true = 1
bit false = 0

bit-le : (b : Bool) → bit b ≤ 1
bit-le true = omega arith
bit-le false = omega arith

-- How often the net.Conn was closed, and how many writes came behind a close.
abbrev pub closings : List Call → ℕ
closings [] = 0
closings (close ∷ calls) = suc (closings calls)
closings (_ ∷ calls) = closings calls

abbrev pub late : List Call → ℕ
late [] = 0
late (write frame ∷ calls) = closings calls + late calls
late (_ ∷ calls) = late calls

-- A writer that has found the connection open and has its write before it.
abbrev pub past : Writing → ℕ
past (admitted frame) = 1
past (timed d frame) = 1
past (writing armed frame) = 1
past _ = 0

-- No write deadline that the net.Conn has accepted stands without a call to clear it.
abbrev pub Settled : NetConn → List Call → Type 0
Settled net [] = Unit {0}
Settled net (set_write_deadline none ∷ calls) = Unit {0}
Settled net (set_write_deadline (some t) ∷ calls) =
    (net.on_write_deadline calls (some t) ≢ none) × Settled net calls
Settled net (_ ∷ calls) = Settled net calls

-- Only between the setting of a deadline and its clearing does one stand.
abbrev pub Settles : NetConn → Writing → List Call → Type 0
Settles net (writing true frame) calls = Unit {0}
Settles net clearing calls = Unit {0}
Settles net _ calls = Settled net calls

pub record IsTidy (net : NetConn) (x : Life) : Type 0 where
  pub once : closings x.conn.calls + bit x.closing ≡ bit x.conn.closed
  pub last_write : late x.conn.calls + past x.writer ≤ 1
  pub closed_first : late x.conn.calls ≤ bit x.conn.closed
  pub settled : Settles net x.writer x.conn.calls

at_writer :
    (net : NetConn) {p q : Writing} (calls : List Call)
    → p ≡ q
    → Settles net p calls
    → Settles net q calls
at_writer net calls e = subst (λ w. Settles net w calls) e

-- A call that sets no write deadline.
same-Settles :
    (net : NetConn) (p : Writing) (calls calls' : List Call)
    → (Settled net calls → Settled net calls')
    → Settles net p calls
    → Settles net p calls'
same-Settles net idle calls calls' k = k
same-Settles net (locked frame) calls calls' k = k
same-Settles net (admitted frame) calls calls' k = k
same-Settles net (timed d frame) calls calls' k = k
same-Settles net (writing true frame) calls calls' k = λ h. h
same-Settles net (writing false frame) calls calls' k = k
same-Settles net clearing calls calls' k = λ h. h

timeout-past : (d : ℤ) (frame : List ℕ) → past (after_timeout d frame) ≡ 1
timeout-past (pos zero) frame = refl
timeout-past (pos (suc d)) frame = refl
timeout-past (negsuc d) frame = refl

timeout-Settles :
    (net : NetConn) (d : ℤ) (frame : List ℕ) (calls : List Call)
    → Settled net calls
    → Settles net (after_timeout d frame) calls
timeout-Settles net (pos zero) frame calls h = h
timeout-Settles net (pos (suc d)) frame calls h = h
timeout-Settles net (negsuc d) frame calls h = h

arming-past : (r : Option Error) (frame : List ℕ) → past (after_arming r frame) ≤ 1
arming-past none frame = omega arith
arming-past (some e) frame = omega arith

arming-Settles :
    (net : NetConn) (t : ℕ) (frame : List ℕ) (calls : List Call)
    → Settled net calls
    → Settles net
        (after_arming (net.on_write_deadline calls (some t)) frame)
        (set_write_deadline (some t) ∷ calls)
arming-Settles net t frame calls h = go (net.on_write_deadline calls (some t)) refl
  where
    go :
        (r : Option Error)
        → net.on_write_deadline calls (some t) ≡ r
        → Settles net (after_arming r frame) (set_write_deadline (some t) ∷ calls)
    go none e = tt
    go (some x) e = ((λ q. cc), h)

Step-IsTidy : {net : NetConn} {x y : Life} → IsTidy net x → Step net x y → IsTidy net y
Step-IsTidy {net} {x} h (locks frame e) = record {
  once = h.once;
  last_write = omega (arith, h.last_write);
  closed_first = h.closed_first;
  settled = at_writer net x.conn.calls e h.settled;
}
Step-IsTidy {net} {x} h (finds_closed frame e shut) = record {
  once = h.once;
  last_write = omega (arith, h.last_write);
  closed_first = h.closed_first;
  settled = at_writer net x.conn.calls e h.settled;
}
Step-IsTidy {net} {x} h (finds_open frame e free) = record {
  once = h.once;
  last_write = omega (arith, h.closed_first, ap bit free);
  closed_first = h.closed_first;
  settled = at_writer net x.conn.calls e h.settled;
}
Step-IsTidy {net} {x} h (reads_timeout frame e) = record {
  once = h.once;
  last_write = omega (arith, h.last_write, ap past e, timeout-past x.conn.write_timeout frame);
  closed_first = h.closed_first;
  settled =
      timeout-Settles net x.conn.write_timeout frame x.conn.calls
        (at_writer net x.conn.calls e h.settled);
}
Step-IsTidy {net} {x} h (arms now d frame e) = record {
  once = h.once;
  last_write = omega (
    arith,
    h.last_write,
    ap past e,
    arming-past (net.on_write_deadline x.conn.calls (some (now + d))) frame,
  );
  closed_first = h.closed_first;
  settled =
      arming-Settles net (now + d) frame x.conn.calls (at_writer net x.conn.calls e h.settled);
}
Step-IsTidy {net} {x} h (writes true frame e) = record {
  once = h.once;
  last_write = omega (arith, h.last_write, ap past e, h.once, bit-le x.conn.closed);
  closed_first = omega (arith, h.last_write, ap past e, h.once);
  settled = tt;
}
Step-IsTidy {net} {x} h (writes false frame e) = record {
  once = h.once;
  last_write = omega (arith, h.last_write, ap past e, h.once, bit-le x.conn.closed);
  closed_first = omega (arith, h.last_write, ap past e, h.once);
  settled = at_writer net x.conn.calls e h.settled;
}
Step-IsTidy {net} {x} h (clears e) = record {
  once = h.once;
  last_write = omega (arith, h.last_write);
  closed_first = h.closed_first;
  settled = tt;
}
Step-IsTidy {net} {x} h (marks_closed free) = record {
  once = omega (arith, h.once, ap bit free);
  last_write = h.last_write;
  closed_first = omega (arith, h.last_write);
  settled = h.settled;
}
Step-IsTidy {net} {x} h (closes e) = record {
  once = omega (arith, h.once, ap bit e);
  last_write = h.last_write;
  closed_first = h.closed_first;
  settled = same-Settles net x.writer x.conn.calls (close ∷ x.conn.calls) (λ k. k) h.settled;
}
Step-IsTidy {net} {x} h (sets_timeout d) = record {
  once = h.once;
  last_write = h.last_write;
  closed_first = h.closed_first;
  settled = h.settled;
}
Step-IsTidy {net} {x} h (sets_read_deadline t) = record {
  once = h.once;
  last_write = h.last_write;
  closed_first = h.closed_first;
  settled =
      same-Settles net x.writer x.conn.calls (set_read_deadline t ∷ x.conn.calls) (λ k. k)
        h.settled;
}

-- Whatever a net.Conn answers, refused deadlines included, and however writers, closers and the
-- setters of deadlines interleave: once `Close` has set `closed`, the net.Conn is closed exactly
-- once, by then or still to be; behind that close comes at most one write, that of a writer which
-- had found the connection open before; and except while a writer is at its write under a deadline
-- or about to clear it, no write deadline that was accepted stands without a call that clears it.
pub Reach-IsTidy : (net : NetConn) (x : Life) → Reach net x → IsTidy net x
Reach-IsTidy net _ start = record {
  once = refl;
  last_write = omega arith;
  closed_first = omega arith;
  settled = tt;
}
Reach-IsTidy net x (onwards r st) = Step-IsTidy (Reach-IsTidy net _ r) st
