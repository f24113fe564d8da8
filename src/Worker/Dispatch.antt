-- ===== src/Worker/Dispatch.antt =====
-- The turns of `dispatch` and the order of the frames.
use spop.Base.{
  ℕ, ◌≡◌, refl, sym, subst, inr, ap, ◌∙◌, Bool, true, false, not, Option, none, some, Result, ok,
  err, fault, if◌then◌else◌, ◌==◌,
}
use spop.Frame.{Frame, type_haproxy_hello, type_haproxy_disconnect, type_notify}
use spop.Handshake.{Negotiation, agreed, disconnect, negotiate, status_normal, closed_by_server}
use spop.Worker.{Setting, Worker, slot_limit, send_agent_hello, send_agent_disconnect}
use spop.Worker.Loop.{
  RunError, Phase, arming, parked, starting, draining, closing, hello_agreed, hello_answered,
  take_hello, disconnect_sent, take_disconnect, acquire_slot, take_notify, dispatch, hello_not_sent,
}
use spop.Worker.Order.{
  InOrder, send_agent_disconnect-InOrder, send_agent_hello-InOrder, bye-Sent, hello-Sent,
}
use spop.Handshake.Rules.{IsFrameSize, negotiate-IsFrameSize}
use spop.Worker.Turns.{IsLimit, Turned, not-false, Turned-if, parts, stays}

hello_agreed-Turned :
    (s : Setting) (f : Frame) (size : ℕ) (w : Worker)
    → w.ready ≡ false
    → IsFrameSize size
    → InOrder w false
    → Turned s w (hello_agreed s f size w)
unfolding hello_agreed
hello_agreed-Turned s f size w r bounds h =
    let w₀ : Worker = record w { max_frame = size; engine_id = f.engine_id } in
    let (failed, sent) = send_agent_hello-InOrder s size w₀ r h in
    go f.healthcheck (send_agent_hello s size w₀) failed sent (hello-Sent s size w₀).same
  where
    last : Bool → Worker → Worker × Phase
    last b w' = if b then (w', closing none) else (record w' { ready = true }, arming)

    outcome : Bool → Worker × Result (Unit {0}) → Worker × Phase
    outcome b (w', ok _) = last b w'
    outcome b (w', err e) = (w', closing (some (hello_not_sent e)))
    outcome b (w', fault x) = (w', closing none)

    unready : {A : Type 0} → w.ready ≡ true → A
    unready e = cc

    ends :
        (w' : Worker) (e : Option RunError)
        → InOrder w' true
        → w' ≡ record w {
          max_frame = size;
          engine_id = f.engine_id;
          conn = w'.conn;
          panicked = w'.panicked;
        }
        → Turned s w (w', closing e)
    ends w' e h' q = record {
      in_order = h';
      notify_ready = λ p. cc;
      stays_ready = λ p. unready p;
      same_slots = ap (λ v. v.slots) q;
      keeps_limit = λ _. subst IsLimit (sym (ap (λ v. v.max_frame) q)) (inr bounds);
      keeps_engine = λ p. unready p;
      unlimited = λ p. cc;
    }

    go :
        (b : Bool) (out : Worker × Result (Unit {0}))
        → InOrder out.0 true
        → (out.1 ≡ ok tt → InOrder (record out.0 { ready = true }) false)
        → out.0 ≡ record w {
          max_frame = size;
          engine_id = f.engine_id;
          conn = out.0.conn;
          panicked = out.0.panicked;
        }
        → Turned s w (outcome b out)
    go true (w', ok _) failed sent q = ends w' none failed q
    go false (w', ok _) failed sent q = record {
      in_order = sent refl;
      notify_ready = λ p. cc;
      stays_ready = λ p. refl;
      same_slots = ap (λ v. v.slots) q;
      keeps_limit = λ _. subst IsLimit (sym (ap (λ v. v.max_frame) q)) (inr bounds);
      keeps_engine = λ p. unready p;
      unlimited = λ p. cc;
    }
    go b (w', err e) failed sent q = ends w' (some (hello_not_sent e)) failed q
    go b (w', fault x) failed sent q = ends w' none failed q

hello_answered-Turned :
    (s : Setting) (f : Frame) (n : Negotiation) (w : Worker)
    → w.ready ≡ false
    → negotiate f ≡ n
    → InOrder w false
    → Turned s w (hello_answered s f n w)
unfolding hello_answered
hello_answered-Turned s f (agreed size) w r e h =
    hello_agreed-Turned s f size w r (negotiate-IsFrameSize f size e) h
hello_answered-Turned s f (disconnect status_code notice) w r e h = parts s status_code notice _ w h

take_hello-Turned :
    (s : Setting) (f : Frame) (w : Worker) → InOrder w false → Turned s w (take_hello s f w)
unfolding take_hello
take_hello-Turned s f w h =
    Turned-if w.ready (λ _. parts s _ _ _ w h)
      λ r. hello_answered-Turned s f (negotiate f) w r refl h

take_disconnect-Turned :
    (s : Setting) (f : Frame) (w : Worker) → InOrder w false → Turned s w (take_disconnect s f w)
unfolding take_disconnect
take_disconnect-Turned s f w h =
    Turned-if (not w.ready) (λ _. parts s _ _ _ w h)
      λ _.
        go (send_agent_disconnect s status_normal closed_by_server w)
          (send_agent_disconnect-InOrder s status_normal closed_by_server w h)
          (bye-Sent s status_normal closed_by_server w).same
  where
    go :
        (out : Worker × Result (Unit {0}))
        → InOrder out.0 true
        → out.0 ≡ record w { conn = out.0.conn; panicked = out.0.panicked; goodbye_sent = true }
        → Turned s w (disconnect_sent out)
    go (w', ok _) h' r = record {
      in_order = h';
      notify_ready = λ p. cc;
      stays_ready = λ p. ap (λ v. v.ready) r ∙ p;
      same_slots = ap (λ v. v.slots) r;
      keeps_limit = subst IsLimit (sym (ap (λ v. v.max_frame) r));
      keeps_engine = λ p. ap (λ v. v.engine_id) r;
      unlimited = λ p. cc;
    }
    go (w', err e) h' r = record {
      in_order = h';
      notify_ready = λ p. cc;
      stays_ready = λ p. ap (λ v. v.ready) r ∙ p;
      same_slots = ap (λ v. v.slots) r;
      keeps_limit = subst IsLimit (sym (ap (λ v. v.max_frame) r));
      keeps_engine = λ p. ap (λ v. v.engine_id) r;
      unlimited = λ p. cc;
    }
    go (w', fault x) h' r = record {
      in_order = h';
      notify_ready = λ p. cc;
      stays_ready = λ p. ap (λ v. v.ready) r ∙ p;
      same_slots = ap (λ v. v.slots) r;
      keeps_limit = subst IsLimit (sym (ap (λ v. v.max_frame) r));
      keeps_engine = λ p. ap (λ v. v.engine_id) r;
      unlimited = λ p. cc;
    }

take_notify-Turned :
    (s : Setting) (f : Frame) (w : Worker) → InOrder w false → Turned s w (take_notify s f w)
unfolding take_notify acquire_slot
take_notify-Turned s f w h =
    Turned-if (not w.ready) (λ _. parts s _ _ _ w h)
      λ r. go w.done (slot_limit s.config) refl (not-false w.ready r)
  where
    inner : Bool → Phase
    inner b = if b then draining else parked f

    phase : Bool → Option ℕ → Phase
    phase b none = starting f
    phase b (some limit) = inner b

    go :
        (b : Bool) (o : Option ℕ)
        → slot_limit s.config ≡ o
        → w.ready ≡ true
        → Turned s w (w, phase b o)
    go b none e r = stays s w (starting f) h (λ p. r) (λ p. e)
    go true (some limit) e r = stays s w draining h (λ p. r) (λ p. cc)
    go false (some limit) e r = stays s w (parked f) h (λ p. r) (λ p. cc)

pub dispatch-Turned :
    (s : Setting) (f : Frame) (w : Worker) → InOrder w false → Turned s w (dispatch s f w)
unfolding dispatch
dispatch-Turned s f w h =
    Turned-if (f.type == type_haproxy_hello) (λ _. take_hello-Turned s f w h)
      λ _.
        Turned-if (f.type == type_haproxy_disconnect) (λ _. take_disconnect-Turned s f w h)
          λ _.
            Turned-if (f.type == type_notify) (λ _. take_notify-Turned s f w h)
              λ _. parts s _ _ _ w h
