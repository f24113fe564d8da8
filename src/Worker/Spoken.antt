-- ===== src/Worker/Spoken.antt =====
-- The worker's latches for its AGENT-DISCONNECTs over the turns of the read loop: none is ever reset.
use spop.Base.{
  ℕ, ◌≤◌, ◌≡◌, ◌≢◌, refl, sym, subst, ap, Bool, true, false, not, ◌&&◌, List, [], ◌∷◌, Option, none,
  some, Result, ok, err, fault, Error, arith, if◌then◌else◌, ◌==◌,
}
use spop.Frame.{
  Frame, new_frame, from_haproxy, type_haproxy_hello, type_haproxy_disconnect, type_notify,
}
use spop.Frame.Read.{Source, read_limit}
use spop.Handshake.{
  Notice, Negotiation, agreed, disconnect, negotiate, closed_by_server, status_normal,
}
use spop.Transport.{read_deadline}
use spop.Worker.{
  Setting, Worker, frame_limit, slot_limit, agent_hello, agent_disconnect, send_agent_hello,
  send_agent_disconnect, disconnect_once, read_timeout,
}
use spop.Worker.Loop.{
  RunError, Phase, arming, reading, dispatching, parked, starting, draining, closing, set_deadline,
  expire, deadline_of, arm_read_deadline, arm_turn, is_eof, is_deadline, is_too_big, read_failed,
  read_turn, hello_agreed, hello_answered, take_hello, disconnect_sent, take_disconnect,
  acquire_slot, take_notify, dispatch, hello_not_sent, deadline_not_set,
}
use spop.Worker.Sending.{send_frame-Sent}
use spop.Worker.Heard.{keys, in_hand}

-- No AGENT-DISCONNECT was asked for.
abbrev pub Silent : Worker → Type 0
Silent w = (w.goodbye_sent ≡ false) × (w.disconnected ≡ false)

send_agent_hello-Silent :
    (s : Setting) (size : ℕ) (w : Worker) → Silent (send_agent_hello s size w).0 → Silent w
unfolding send_agent_hello
send_agent_hello-Silent s size w = subst Silent (send_frame-Sent s (agent_hello size) w).same

send_agent_disconnect-speaks :
    (s : Setting) (code : ℕ) (notice : Notice) (w : Worker)
    → (send_agent_disconnect s code notice w).0.goodbye_sent ≡ true
unfolding send_agent_disconnect
send_agent_disconnect-speaks s code notice w =
    ap (λ v. v.goodbye_sent)
      (send_frame-Sent s (agent_disconnect code (s.render notice))
        (record w { goodbye_sent = true })).same

disconnect_once-speaks :
    (s : Setting) (code : ℕ) (notice : Notice) (w : Worker)
    → (disconnect_once s code notice w).disconnected ≡ true
unfolding disconnect_once
disconnect_once-speaks s code notice w = go w.disconnected refl
  where
    go :
        (b : Bool)
        → w.disconnected ≡ b
        → (if b then w else record (send_agent_disconnect s code notice w).0 {
          disconnected = true;
        }).disconnected
          ≡ true
    go true e = e
    go false e = refl

pub disconnect_once-Silent :
    (s : Setting) (code : ℕ) (notice : Notice) (w : Worker)
    → ¬ Silent (disconnect_once s code notice w)
disconnect_once-Silent s code notice w (_, d) = let e = disconnect_once-speaks s code notice w in cc

send_agent_disconnect-Silent :
    (s : Setting) (code : ℕ) (notice : Notice) (w : Worker)
    → ¬ Silent (send_agent_disconnect s code notice w).0
send_agent_disconnect-Silent s code notice w (g, _) =
    let e = send_agent_disconnect-speaks s code notice w in cc

-- A turn resets no latch; and where the loop neither parts nor gives up, it keeps the NOTIFY in its
-- hands.
pub record Keeps (w : Worker) (fs : List Frame) (out : Worker × Phase) : Type 0 where
  pub back : Silent out.0 → Silent w
  pub kept :
      Silent out.0 → out.1 ≢ draining → (P : Frame → Bool) → keys fs P ≤ keys (in_hand out.1) P

Keeps-if :
    {w : Worker} {fs : List Frame} (b : Bool) {x y : Worker × Phase}
    → (b ≡ true → Keeps w fs x)
    → (b ≡ false → Keeps w fs y)
    → Keeps w fs (if b then x else y)
Keeps-if true hx hy = hx refl
Keeps-if false hx hy = hy refl

idle : {w : Worker} (w' : Worker) (p : Phase) → (Silent w' → Silent w) → Keeps w [] (w', p)
idle w' p back = record { back = back; kept = λ h live P. omega arith }

parted : {w : Worker} {fs : List Frame} (w' : Worker) (p : Phase) → ¬ Silent w' → Keeps w fs (w', p)
parted w' p spoken = record {
  back = λ h. elim (spoken h) [ ];
  kept = λ h live. elim (spoken h) [ ];
}

other_in_hand :
    (f : Frame) (type : ℕ)
    → (f.type == type) ≡ true
    → type ≢ type_notify
    → in_hand (dispatching f) ≡ []
other_in_hand f type e other = go (f.type == type_notify) refl
  where
    go : (b : Bool) → (f.type == type_notify) ≡ b → (if b then f ∷ [] else []) ≡ []
    go true q = ground arith
    go false q = refl

module _ (s : Setting) where
  parts-Keeps :
      (code : ℕ) (notice : Notice) (r : Option RunError) (w : Worker) {fs : List Frame}
      → Keeps w fs (disconnect_once s code notice w, closing r)
  parts-Keeps code notice r w =
      parted (disconnect_once s code notice w) (closing r) (disconnect_once-Silent s code notice w)

  read_failed-Keeps : (e : Error) (w : Worker) → Keeps w [] (read_failed s e w)
  unfolding read_failed
  read_failed-Keeps e w =
      Keeps-if (is_eof e) (λ _. idle w _ (λ h. h))
        λ _.
          Keeps-if (is_deadline e && w.done) (λ _. idle w draining (λ h. h))
            λ _.
              Keeps-if (is_deadline e) (λ _. parts-Keeps _ _ _ w)
                λ _. Keeps-if (is_too_big e) (λ _. parts-Keeps _ _ _ w) λ _. parts-Keeps _ _ _ w

  pub read_turn-Silent : (src : Source) (w : Worker) → Silent (read_turn s src w).0 → Silent w
  unfolding read_turn
  read_turn-Silent src w = go (read_limit new_frame src (frame_limit w) (some from_haproxy))
    where
      outcome : Result (Frame × Source) → Worker × Source × Phase
      outcome (ok (f, src')) = (w, src', dispatching f)
      outcome (err e) = ((read_failed s e w).0, src, (read_failed s e w).1)
      outcome (fault x) = (record w { panicked = true }, src, closing none)

      go : (r : Result (Frame × Source)) → Silent (outcome r).0 → Silent w
      go (ok (f, src')) h = h
      go (err e) h = (read_failed-Keeps e w).back h
      go (fault x) h = h

  pub read_turn-Keeps :
      (src : Source) (w : Worker)
      → Keeps w (in_hand (read_turn s src w).2) ((read_turn s src w).0, (read_turn s src w).2)
  read_turn-Keeps src w = record { back = read_turn-Silent src w; kept = λ h live P. omega arith }

  hello_agreed-Keeps : (f : Frame) (size : ℕ) (w : Worker) → Keeps w [] (hello_agreed s f size w)
  unfolding hello_agreed
  hello_agreed-Keeps f size w =
      go f.healthcheck (send_agent_hello s size started) (send_agent_hello-Silent s size started)
    where
      started : Worker
      started = record w { max_frame = size; engine_id = f.engine_id }

      outcome : Bool → Worker × Result (Unit {0}) → Worker × Phase
      outcome b (w', ok _) = if b then (w', closing none) else (record w' { ready = true }, arming)
      outcome b (w', err e) = (w', closing (some (hello_not_sent e)))
      outcome b (w', fault x) = (w', closing none)

      go :
          (b : Bool) (out : Worker × Result (Unit {0}))
          → (Silent out.0 → Silent w)
          → Keeps w [] (outcome b out)
      go true (w', ok _) q = idle w' _ q
      go false (w', ok _) q = idle (record w' { ready = true }) arming q
      go b (w', err x) q = idle w' _ q
      go b (w', fault x) q = idle w' _ q

  hello_answered-Keeps :
      (f : Frame) (n : Negotiation) (w : Worker) → Keeps w [] (hello_answered s f n w)
  unfolding hello_answered
  hello_answered-Keeps f (agreed size) w = hello_agreed-Keeps f size w
  hello_answered-Keeps f (disconnect code notice) w = parts-Keeps code notice _ w

  take_disconnect-Keeps : (f : Frame) (w : Worker) → Keeps w [] (take_disconnect s f w)
  unfolding take_disconnect disconnect_sent
  take_disconnect-Keeps f w =
      Keeps-if (not w.ready) (λ _. parts-Keeps _ _ _ w)
        λ _.
          go (send_agent_disconnect s status_normal closed_by_server w)
            (send_agent_disconnect-Silent s status_normal closed_by_server w)
    where
      go : (out : Worker × Result (Unit {0})) → ¬ Silent out.0 → Keeps w [] (disconnect_sent out)
      go (w', ok _) q = parted w' _ q
      go (w', err x) q = parted w' _ q
      go (w', fault x) q = parted w' _ q

  take_notify-Keeps : (f : Frame) (w : Worker) → Keeps w (f ∷ []) (take_notify s f w)
  unfolding take_notify acquire_slot
  take_notify-Keeps f w =
      Keeps-if (not w.ready) (λ _. parts-Keeps _ _ _ w) λ _. go w.done (slot_limit s.config)
    where
      phase : Bool → Option ℕ → Phase
      phase b none = starting f
      phase b (some limit) = if b then draining else parked f

      go : (b : Bool) (o : Option ℕ) → Keeps w (f ∷ []) (w, phase b o)
      go b none = record { back = λ h. h; kept = λ h live P. omega arith }
      go true (some limit) = record { back = λ h. h; kept = λ h live. elim (live refl) [ ] }
      go false (some limit) = record { back = λ h. h; kept = λ h live P. omega arith }

  pub dispatch-Keeps : (f : Frame) (w : Worker) → Keeps w (in_hand (dispatching f)) (dispatch s f w)
  unfolding dispatch take_hello
  dispatch-Keeps f w =
      Keeps-if (f.type == type_haproxy_hello)
        (λ e.
          subst (λ fs. Keeps w fs (take_hello s f w))
            (sym (other_in_hand f type_haproxy_hello e (λ q. omega (arith, q))))
            (Keeps-if w.ready (λ _. parts-Keeps _ _ _ w)
              λ _. hello_answered-Keeps f (negotiate f) w))
        λ _.
          Keeps-if (f.type == type_haproxy_disconnect)
            (λ e.
              subst (λ fs. Keeps w fs (take_disconnect s f w))
                (sym (other_in_hand f type_haproxy_disconnect e (λ q. omega (arith, q))))
                (take_disconnect-Keeps f w))
            λ _.
              Keeps-if (f.type == type_notify)
                (λ e.
                  subst (λ b. Keeps w (if b then f ∷ [] else []) (take_notify s f w)) (sym e)
                    (take_notify-Keeps f w))
                λ _. parts-Keeps _ _ _ w

  set_deadline-Silent : (t : Option ℕ) (w : Worker) → Silent (set_deadline s t w).0 → Silent w
  unfolding set_deadline read_deadline
  set_deadline-Silent t w h = h

  pub expire-Silent : (w : Worker) → Silent (expire s w).0 → Silent w
  unfolding expire
  expire-Silent w = set_deadline-Silent (some (s.clock w.conn.calls)) w

  arm_read_deadline-Silent :
      (later : Bool) (w : Worker) → Silent (arm_read_deadline s later w).0 → Silent w
  unfolding arm_read_deadline
  arm_read_deadline-Silent later w = outer w.done
    where
      t : Option ℕ
      t = deadline_of (s.clock w.conn.calls) (read_timeout s w)

      set : Worker × Option Error
      set = set_deadline s t w

      rearmed : Option Error → Worker × Option Error
      rearmed (some refused) = (set.0, some refused)
      rearmed none = if later then expire s (record set.0 { done = true }) else (set.0, none)

      inner :
          (b : Bool)
          → Silent (if b then expire s (record set.0 { done = true }) else (set.0, none)).0
          → Silent w
      inner true h = set_deadline-Silent t w (expire-Silent (record set.0 { done = true }) h)
      inner false h = set_deadline-Silent t w h

      middle : (e : Option Error) → Silent (rearmed e).0 → Silent w
      middle (some refused) = set_deadline-Silent t w
      middle none = inner later

      outer : (b : Bool) → Silent (if b then expire s w else rearmed set.1).0 → Silent w
      outer true = expire-Silent w
      outer false = middle set.1

  pub arm_turn-Keeps : (later : Bool) (w : Worker) → Keeps w [] (arm_turn s later w)
  unfolding arm_turn
  arm_turn-Keeps later w = go (arm_read_deadline s later w) (arm_read_deadline-Silent later w)
    where
      outcome : Worker × Option Error → Worker × Phase
      outcome (w', none) = (w', reading)
      outcome (w', some refused) = (w', closing (some (deadline_not_set refused)))

      go : (out : Worker × Option Error) → (Silent out.0 → Silent w) → Keeps w [] (outcome out)
      go (w', none) q = idle w' reading q
      go (w', some refused) q = idle w' _ q
