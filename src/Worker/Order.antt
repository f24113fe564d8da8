-- ===== src/Worker/Order.antt =====
-- The order of the frames that a connection carries.
use spop.Base.{
  ℕ, suc, ◌+◌, ◌≤◌, ◌≡◌, refl, sym, subst, ap, ◌∙◌, Bool, true, false, List, [], ◌∷◌, ◌⊎◌, inl, inr,
  arith, Result, ok, Bool-cases, if◌then◌else◌,
}
use spop.Frame.{Frame, type_agent_hello, type_agent_disconnect, type_agent_ack}
use spop.Handshake.{Notice}
use spop.Worker.{
  Setting, Worker, send_agent_hello, send_agent_disconnect, disconnect_once, write_ack,
  agent_disconnect, agent_hello,
}
use spop.Worker.Sending.{sent_types, Sent, send_frame-Sent, write_ack-Sent, write_ack_after}

-- The latest frame first: an AGENT-HELLO, ACKs behind it, and so many AGENT-DISCONNECTs at the end.
pub data Carried : Bool → ℕ → List ℕ → Type 0 where
  silent : Carried false 0 []
  hello : Carried true 0 (type_agent_hello ∷ [])
  ack : {types : List ℕ} → Carried true 0 types → Carried true 0 (type_agent_ack ∷ types)
  goodbye :
      {greeted : Bool} {n : ℕ} {types : List ℕ}
      → Carried greeted n types
      → Carried greeted (suc n) (type_agent_disconnect ∷ types)

abbrev pub bit : Bool → ℕ
bit true = 1
bit false = 0

-- What the worker's latches say of the frames sent; `over` tells that the read loop has ended.
pub record Holds (types : List ℕ) (ready disconnected goodbye_sent over : Bool) : Type 0 where
  pub greeted : Bool
  pub goodbyes : ℕ
  pub carried : Carried greeted goodbyes types
  pub few : goodbyes ≤ bit disconnected + bit over
  pub latched : goodbye_sent ≡ false → goodbyes ≡ 0
  pub ready_greeted : ready ≡ true → greeted ≡ true
  pub fresh : ready ≡ false → over ≡ false → types ≡ []

abbrev pub InOrder : Worker → Bool → Type 0
InOrder w over = Holds (sent_types w) w.ready w.disconnected w.goodbye_sent over

-- Out of the read loop nothing is asked of a connection that is not ready.
pub Holds-over :
    {types : List ℕ} {ready disconnected goodbye_sent over : Bool}
    → Holds types ready disconnected goodbye_sent over
    → Holds types ready disconnected goodbye_sent true
Holds-over {types} {ready} {disconnected} {goodbye_sent} {over} h = record {
  greeted = h.greeted;
  goodbyes = h.goodbyes;
  carried = h.carried;
  few = more over h.few;
  latched = h.latched;
  ready_greeted = h.ready_greeted;
  fresh = λ r o. cc;
}
  where
    more : (o : Bool) → h.goodbyes ≤ bit disconnected + bit o → h.goodbyes ≤ bit disconnected + 1
    more true p = p
    more false p = omega arith

Holds-goodbye :
    {types types' : List ℕ} {ready disconnected disconnected' goodbye_sent over over' : Bool}
    → Holds types ready disconnected goodbye_sent over
    → (types' ≡ types) ⊎ (types' ≡ type_agent_disconnect ∷ types)
    → suc (bit disconnected + bit over) ≤ bit disconnected' + bit over'
    → (over' ≡ true) ⊎ (ready ≡ true)
    → Holds types' ready disconnected' true over'
Holds-goodbye {types} {types'} h (inl same) room alive = record {
  greeted = h.greeted;
  goodbyes = h.goodbyes;
  carried = subst (Carried h.greeted h.goodbyes) (sym same) h.carried;
  few = omega (arith, h.few);
  latched = λ e. cc;
  ready_greeted = h.ready_greeted;
  fresh = λ r o. elim alive [ inl p ↦ cc | inr p ↦ cc ];
}
Holds-goodbye {types} {types'} h (inr more) room alive = record {
  greeted = h.greeted;
  goodbyes = suc h.goodbyes;
  carried = subst (Carried h.greeted (suc h.goodbyes)) (sym more) (goodbye h.carried);
  few = omega (arith, h.few);
  latched = λ e. cc;
  ready_greeted = h.ready_greeted;
  fresh = λ r o. elim alive [ inl p ↦ cc | inr p ↦ cc ];
}

Holds-ack :
    {types types' : List ℕ} {ready disconnected goodbye_sent over : Bool}
    → Holds types ready disconnected goodbye_sent over
    → ready ≡ true
    → goodbye_sent ≡ false
    → (types' ≡ types) ⊎ (types' ≡ type_agent_ack ∷ types)
    → Holds types' ready disconnected goodbye_sent over
Holds-ack {ready = ready} {disconnected} {goodbye_sent} {over} h r live (inl same) =
    subst (λ t. Holds t ready disconnected goodbye_sent over) (sym same) h
Holds-ack {types} h r live (inr more) = record {
  greeted = true;
  goodbyes = 0;
  carried = subst (Carried true 0) (sym more) (
      ack (
        subst (λ n. Carried true n types) (h.latched live)
          (subst (λ g. Carried g h.goodbyes types) (h.ready_greeted r) h.carried)));
  few = omega arith;
  latched = λ e. refl;
  ready_greeted = λ e. refl;
  fresh = λ p o. cc;
}

pub Holds-same :
    {types types' : List ℕ} {r r' d d' g g' over : Bool}
    → types' ≡ types
    → r' ≡ r
    → d' ≡ d
    → g' ≡ g
    → Holds types r d g over
    → Holds types' r' d' g' over
Holds-same e er ed eg h = record {
  greeted = h.greeted;
  goodbyes = h.goodbyes;
  carried = subst (Carried h.greeted h.goodbyes) (sym e) h.carried;
  few = rw ed h.few;
  latched = λ p. h.latched (sym eg ∙ p);
  ready_greeted = λ p. h.ready_greeted (sym er ∙ p);
  fresh = λ p o. e ∙ h.fresh (sym er ∙ p) o;
}

-- A send leaves the latches alone.
after_send :
    (w : Worker) (out : Worker × Result (Unit {0})) (type : ℕ) {over : Bool}
    → Sent type w out
    → Holds (sent_types out.0) w.ready w.disconnected w.goodbye_sent over
    → InOrder out.0 over
after_send w out type sent h =
    Holds-same refl (ap (λ v. v.ready) sent.same) (ap (λ v. v.disconnected) sent.same)
      (ap (λ v. v.goodbye_sent) sent.same) h

pub bye-Sent :
    (s : Setting) (status_code : ℕ) (notice : Notice) (w : Worker)
    → Sent type_agent_disconnect
        (record w { goodbye_sent = true })
        (send_agent_disconnect s status_code notice w)
unfolding send_agent_disconnect
bye-Sent s status_code notice w =
    send_frame-Sent s (agent_disconnect status_code (s.render notice))
      (record w { goodbye_sent = true })

-- `sendAgentDisconnect` out of the read loop, past `disconnectOnce`.
pub send_agent_disconnect-InOrder :
    (s : Setting) (status_code : ℕ) (notice : Notice) (w : Worker)
    → InOrder w false
    → InOrder (send_agent_disconnect s status_code notice w).0 true
send_agent_disconnect-InOrder s status_code notice w h =
    let sent = bye-Sent s status_code notice w in
    after_send (record w { goodbye_sent = true }) (send_agent_disconnect s status_code notice w)
      type_agent_disconnect sent (Holds-goodbye h sent.grows (omega arith) (inl refl))

disconnect_first-InOrder :
    (s : Setting) (status_code : ℕ) (notice : Notice) (w : Worker) {over : Bool}
    → w.disconnected ≡ false
    → (over ≡ true) ⊎ (w.ready ≡ true)
    → InOrder w over
    → InOrder (record (send_agent_disconnect s status_code notice w).0 { disconnected = true }) over
disconnect_first-InOrder s status_code notice w {over} first alive h =
    let sent = bye-Sent s status_code notice w in
    Holds-same refl (ap (λ v. v.ready) sent.same) refl (ap (λ v. v.goodbye_sent) sent.same)
      (Holds-goodbye h sent.grows (rw first (omega arith)) alive)

pub disconnect_once-InOrder :
    (s : Setting) (status_code : ℕ) (notice : Notice) (w : Worker) {over : Bool}
    → (over ≡ true) ⊎ (w.ready ≡ true)
    → InOrder w over
    → InOrder (disconnect_once s status_code notice w) over
unfolding disconnect_once
disconnect_once-InOrder s status_code notice w {over} alive h = go w.disconnected refl
  where
    go :
        (b : Bool)
        → w.disconnected ≡ b
        → InOrder
            (if b
              then w
              else record (send_agent_disconnect s status_code notice w).0 { disconnected = true })
            over
    go true e = h
    go false e = disconnect_first-InOrder s status_code notice w e alive h

-- `writeFrame` of an ACK: behind a goodbye it is not sent.
pub write_ack-InOrder :
    (s : Setting) (f : Frame) (w : Worker) {over : Bool}
    → f.type ≡ type_agent_ack
    → w.ready ≡ true
    → InOrder w over
    → InOrder (write_ack s f w).0 over
write_ack-InOrder s f w {over} e r h = elim (Bool-cases w.goodbye_sent) [
  | inl parted ↦ subst (λ out. InOrder out.0 over) (sym (write_ack_after s f w parted)) h
  | inr live ↦
      let sent = subst (λ t. Sent t w (write_ack s f w)) e (write_ack-Sent s f w live) in
      after_send w (write_ack s f w) type_agent_ack sent (Holds-ack h r live sent.grows)
]

-- An AGENT-HELLO is the first frame.
Holds-hello :
    {types types' : List ℕ} {disconnected goodbye_sent : Bool}
    → Holds types false disconnected goodbye_sent false
    → (types' ≡ types) ⊎ (types' ≡ type_agent_hello ∷ types)
    → Holds types' false disconnected goodbye_sent true
Holds-hello h (inl same) = Holds-same same refl refl refl (Holds-over h)
Holds-hello {types} h (inr more) = record {
  greeted = true;
  goodbyes = 0;
  carried =
      subst (Carried true 0) (sym (more ∙ ap (λ t. type_agent_hello ∷ t) (h.fresh refl refl)))
        hello;
  few = omega arith;
  latched = λ e. refl;
  ready_greeted = λ e. refl;
  fresh = λ p o. cc;
}

Holds-greeted :
    {types : List ℕ} {disconnected goodbye_sent : Bool}
    → types ≡ type_agent_hello ∷ []
    → Holds types true disconnected goodbye_sent false
Holds-greeted e = record {
  greeted = true;
  goodbyes = 0;
  carried = subst (Carried true 0) (sym e) hello;
  few = omega arith;
  latched = λ e. refl;
  ready_greeted = λ e. refl;
  fresh = λ p o. cc;
}

pub hello-Sent :
    (s : Setting) (size : ℕ) (w : Worker) → Sent type_agent_hello w (send_agent_hello s size w)
unfolding send_agent_hello
hello-Sent s size w = send_frame-Sent s (agent_hello size) w

-- A HELLO that failed, and one that went out: the connection is ready then.
pub send_agent_hello-InOrder :
    (s : Setting) (size : ℕ) (w : Worker)
    → w.ready ≡ false
    → InOrder w false
    → InOrder (send_agent_hello s size w).0 true
      × ((send_agent_hello s size w).1 ≡ ok tt
          → InOrder (record (send_agent_hello s size w).0 { ready = true }) false)
send_agent_hello-InOrder s size w r h =
    let sent = hello-Sent s size w in
    let before : Holds (sent_types w) false w.disconnected w.goodbye_sent false =
      Holds-same refl (sym r) refl refl h in
    (
      after_send w (send_agent_hello s size w) type_agent_hello sent
          (Holds-same refl r refl refl (Holds-hello before sent.grows)),
      λ e. Holds-greeted (sent.delivers e ∙ ap (λ t. type_agent_hello ∷ t) (h.fresh r refl)),
    )
