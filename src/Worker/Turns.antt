-- ===== src/Worker/Turns.antt =====
-- The turns of the read loop and the order of the frames.
use spop.Base.{
  ℕ, ◌≡◌, refl, sym, subst, ap, ◌⊎◌, ◌∙◌, Bool, true, false, not, ◌&&◌, Option, none, some, inl,
  Result, ok, err, fault, Error, if◌then◌else◌,
}
use spop.Transport.{read_deadline}
use spop.Frame.{Frame, new_frame, from_haproxy}
use spop.Frame.Read.{Source, read_limit}
use spop.Handshake.{Notice}
use spop.Handshake.Rules.{IsFrameSize}
use spop.Worker.{
  Setting, Worker, disconnect_once, frame_limit, slot_limit, send_agent_disconnect, read_timeout,
}
use spop.Worker.Loop.{
  RunError, Phase, reading, dispatching, parked, starting, draining, closing, stopped, set_deadline,
  expire, deadline_of, arm_read_deadline, arm_turn, is_eof, is_deadline, is_too_big, read_failed,
  read_turn, deadline_not_set,
}
use spop.Worker.Sending.{sent_types}
use spop.Worker.Order.{InOrder, Holds-same, Holds-over, disconnect_once-InOrder, bye-Sent}

-- The read loop has ended; it has a NOTIFY in its hands.
abbrev pub is_over : Phase → Bool
is_over (closing r) = true
is_over (stopped r) = true
is_over _ = false

abbrev pub has_notify : Phase → Bool
has_notify (parked f) = true
has_notify (starting f) = true
has_notify _ = false

abbrev pub is_starting : Phase → Bool
is_starting (starting f) = true
is_starting _ = false

-- No size was agreed on, or one within the bounds.
abbrev pub IsLimit : ℕ → Type 0
IsLimit n = (n ≡ 0) ⊎ IsFrameSize n

pub record Turned (s : Setting) (w : Worker) (out : Worker × Phase) : Type 0 where
  pub in_order : InOrder out.0 (is_over out.1)
  pub notify_ready : has_notify out.1 ≡ true → out.0.ready ≡ true
  pub stays_ready : w.ready ≡ true → out.0.ready ≡ true
  pub same_slots : out.0.slots ≡ w.slots
  pub keeps_limit : IsLimit w.max_frame → IsLimit out.0.max_frame
  pub keeps_engine : w.ready ≡ true → out.0.engine_id ≡ w.engine_id
  pub unlimited : is_starting out.1 ≡ true → slot_limit s.config ≡ none

pub not-false : (b : Bool) → not b ≡ false → b ≡ true
not-false true e = refl
not-false false e = cc

-- Only the deadlines of the connection and the view of the drain differ.
record Alike (w w' : Worker) : Type 0 where
  types : sent_types w' ≡ sent_types w
  ready : w'.ready ≡ w.ready
  disconnected : w'.disconnected ≡ w.disconnected
  goodbye_sent : w'.goodbye_sent ≡ w.goodbye_sent
  slots : w'.slots ≡ w.slots
  max_frame : w'.max_frame ≡ w.max_frame
  engine_id : w'.engine_id ≡ w.engine_id

Alike-InOrder : {w w' : Worker} {over : Bool} → Alike w w' → InOrder w over → InOrder w' over
Alike-InOrder a h = Holds-same a.types a.ready a.disconnected a.goodbye_sent h

set_deadline-Alike : (s : Setting) (t : Option ℕ) (w : Worker) → Alike w (set_deadline s t w).0
unfolding set_deadline read_deadline
set_deadline-Alike s t w = record {
  types = refl;
  ready = refl;
  disconnected = refl;
  goodbye_sent = refl;
  slots = refl;
  max_frame = refl;
  engine_id = refl;
}

expire-Alike : (s : Setting) (w : Worker) → Alike w (expire s w).0
unfolding expire
expire-Alike s w = set_deadline-Alike s _ w

pub expire-InOrder :
    (s : Setting) (w : Worker) {over : Bool} → InOrder w over → InOrder (expire s w).0 over
expire-InOrder s w h = Alike-InOrder (expire-Alike s w) h

pub expire-ready : (s : Setting) (w : Worker) → (expire s w).0.ready ≡ w.ready
expire-ready s w = (expire-Alike s w).ready

pub expire-slots : (s : Setting) (w : Worker) → (expire s w).0.slots ≡ w.slots
expire-slots s w = (expire-Alike s w).slots

pub expire-engine_id : (s : Setting) (w : Worker) → (expire s w).0.engine_id ≡ w.engine_id
expire-engine_id s w = (expire-Alike s w).engine_id

pub expire-max_frame : (s : Setting) (w : Worker) → (expire s w).0.max_frame ≡ w.max_frame
expire-max_frame s w = (expire-Alike s w).max_frame

arm_read_deadline-Alike :
    (s : Setting) (later : Bool) (w : Worker) → Alike w (arm_read_deadline s later w).0
unfolding arm_read_deadline
arm_read_deadline-Alike s later w = outer w.done
  where
    t : Option ℕ
    t = deadline_of (s.clock w.conn.calls) (read_timeout s w)

    armed : Worker
    armed = (set_deadline s t w).0

    twice : Alike w (expire s (record armed { done = true })).0
    twice =
        let first = set_deadline-Alike s t w in
        let second = expire-Alike s (record armed { done = true }) in
        record {
          types = second.types ∙ first.types;
          ready = second.ready ∙ first.ready;
          disconnected = second.disconnected ∙ first.disconnected;
          goodbye_sent = second.goodbye_sent ∙ first.goodbye_sent;
          slots = second.slots ∙ first.slots;
          max_frame = second.max_frame ∙ first.max_frame;
          engine_id = second.engine_id ∙ first.engine_id;
        }

    again : Bool → Worker × Option Error
    again b = if b then expire s (record armed { done = true }) else (armed, none)

    rearmed : Option Error → Worker × Option Error
    rearmed (some refused) = (armed, some refused)
    rearmed none = again later

    inner : (b : Bool) → Alike w (again b).0
    inner true = twice
    inner false = set_deadline-Alike s t w

    middle : (e : Option Error) → Alike w (rearmed e).0
    middle (some refused) = set_deadline-Alike s t w
    middle none = inner later

    outer : (b : Bool) → Alike w (if b then expire s w else rearmed (set_deadline s t w).1).0
    outer true = expire-Alike s w
    outer false = middle (set_deadline s t w).1

pub Turned-if :
    {s : Setting} {w : Worker} (b : Bool) {x y : Worker × Phase}
    → (b ≡ true → Turned s w x)
    → (b ≡ false → Turned s w y)
    → Turned s w (if b then x else y)
Turned-if true hx hy = hx refl
Turned-if false hx hy = hy refl

pub arm_turn-Turned :
    (s : Setting) (later : Bool) (w : Worker) → InOrder w false → Turned s w (arm_turn s later w)
unfolding arm_turn
arm_turn-Turned s later w h = go (arm_read_deadline s later w) (arm_read_deadline-Alike s later w)
  where
    outcome : Worker × Option Error → Worker × Phase
    outcome (w', none) = (w', reading)
    outcome (w', some refused) = (w', closing (some (deadline_not_set refused)))

    go : (out : Worker × Option Error) → Alike w out.0 → Turned s w (outcome out)
    go (w', none) a = record {
      in_order = Alike-InOrder a h;
      notify_ready = λ e. cc;
      stays_ready = λ e. a.ready ∙ e;
      same_slots = a.slots;
      keeps_limit = subst IsLimit (sym a.max_frame);
      keeps_engine = λ e. a.engine_id;
      unlimited = λ e. cc;
    }
    go (w', some refused) a = record {
      in_order = Alike-InOrder a (Holds-over h);
      notify_ready = λ e. cc;
      stays_ready = λ e. a.ready ∙ e;
      same_slots = a.slots;
      keeps_limit = subst IsLimit (sym a.max_frame);
      keeps_engine = λ e. a.engine_id;
      unlimited = λ e. cc;
    }

-- Of its state, `disconnect` changes the connection and the latches alone.
disconnect_once_same :
    (s : Setting) (status_code : ℕ) (notice : Notice) (w : Worker)
    → let w' = disconnect_once s status_code notice w in
      w' ≡ record w {
        conn = w'.conn;
        panicked = w'.panicked;
        goodbye_sent = w'.goodbye_sent;
        disconnected = w'.disconnected;
      }
unfolding disconnect_once
disconnect_once_same s status_code notice w = go w.disconnected
  where
    same : Worker → Type 0
    same w' = w' ≡ record w {
      conn = w'.conn;
      panicked = w'.panicked;
      goodbye_sent = w'.goodbye_sent;
      disconnected = w'.disconnected;
    }

    go :
        (b : Bool)
        → same (
            if b
            then w
            else record (send_agent_disconnect s status_code notice w).0 { disconnected = true })
    go true = refl
    go false =
        ap {A = Worker}
          (λ v. record v {
            disconnected = true;
            goodbye_sent = (send_agent_disconnect s status_code notice w).0.goodbye_sent;
          })
          (bye-Sent s status_code notice w).same

pub disconnect_once_ready :
    (s : Setting) (status_code : ℕ) (notice : Notice) (w : Worker)
    → (disconnect_once s status_code notice w).ready ≡ w.ready
disconnect_once_ready s status_code notice w =
    ap (λ v. v.ready) (disconnect_once_same s status_code notice w)

pub disconnect_once_slots :
    (s : Setting) (status_code : ℕ) (notice : Notice) (w : Worker)
    → (disconnect_once s status_code notice w).slots ≡ w.slots
disconnect_once_slots s status_code notice w =
    ap (λ v. v.slots) (disconnect_once_same s status_code notice w)

pub disconnect_once_max_frame :
    (s : Setting) (status_code : ℕ) (notice : Notice) (w : Worker)
    → (disconnect_once s status_code notice w).max_frame ≡ w.max_frame
disconnect_once_max_frame s status_code notice w =
    ap (λ v. v.max_frame) (disconnect_once_same s status_code notice w)

pub disconnect_once_engine_id :
    (s : Setting) (status_code : ℕ) (notice : Notice) (w : Worker)
    → (disconnect_once s status_code notice w).engine_id ≡ w.engine_id
disconnect_once_engine_id s status_code notice w =
    ap (λ v. v.engine_id) (disconnect_once_same s status_code notice w)

-- The loop says goodbye and ends.
pub parts :
    (s : Setting) (status_code : ℕ) (notice : Notice) (r : Option RunError) (w : Worker)
    → InOrder w false
    → Turned s w (disconnect_once s status_code notice w, closing r)
parts s status_code notice r w h = record {
  in_order = disconnect_once-InOrder s status_code notice w (inl refl) (Holds-over h);
  notify_ready = λ e. cc;
  stays_ready = λ e. disconnect_once_ready s status_code notice w ∙ e;
  same_slots = disconnect_once_slots s status_code notice w;
  keeps_limit = subst IsLimit (sym (disconnect_once_max_frame s status_code notice w));
  keeps_engine = λ e. disconnect_once_engine_id s status_code notice w;
  unlimited = λ e. cc;
}

pub stays :
    (s : Setting) (w : Worker) (p : Phase)
    → InOrder w (is_over p)
    → (has_notify p ≡ true → w.ready ≡ true)
    → (is_starting p ≡ true → slot_limit s.config ≡ none)
    → Turned s w (w, p)
stays s w p h n u = record {
  in_order = h;
  notify_ready = n;
  stays_ready = λ e. e;
  same_slots = refl;
  keeps_limit = λ l. l;
  keeps_engine = λ e. refl;
  unlimited = u;
}

read_failed-Turned :
    (s : Setting) (e : Error) (w : Worker) → InOrder w false → Turned s w (read_failed s e w)
unfolding read_failed
read_failed-Turned s e w h =
    Turned-if (is_eof e) (λ _. stays s w (closing none) (Holds-over h) (λ p. cc) (λ p. cc))
      λ _.
        Turned-if (is_deadline e && w.done) (λ _. stays s w draining h (λ p. cc) (λ p. cc))
          λ _.
            Turned-if (is_deadline e) (λ _. parts s _ _ _ w h)
              λ _. Turned-if (is_too_big e) (λ _. parts s _ _ _ w h) λ _. parts s _ _ _ w h

pub read_turn-Turned :
    (s : Setting) (src : Source) (w : Worker)
    → InOrder w false
    → Turned s w ((read_turn s src w).0, (read_turn s src w).2)
unfolding read_turn
read_turn-Turned s src w h = go (read_limit new_frame src (frame_limit w) (some from_haproxy))
  where
    outcome : Result (Frame × Source) → Worker × Source × Phase
    outcome (ok (f, src')) = (w, src', dispatching f)
    outcome (err e) = ((read_failed s e w).0, src, (read_failed s e w).1)
    outcome (fault x) = (record w { panicked = true }, src, closing none)

    go : (r : Result (Frame × Source)) → Turned s w ((outcome r).0, (outcome r).2)
    go (ok (f, src')) = stays s w (dispatching f) h (λ p. cc) (λ p. cc)
    go (err e) = read_failed-Turned s e w h
    go (fault x) = record {
      in_order = Holds-over h;
      notify_ready = λ p. cc;
      stays_ready = λ p. p;
      same_slots = refl;
      keeps_limit = λ l. l;
      keeps_engine = λ e. refl;
      unlimited = λ p. cc;
    }
