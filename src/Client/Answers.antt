-- ===== src/Client/Answers.antt =====
-- What a worker does with the client's Notify.
use spop.Base.{
  ℕ, suc, ◌≡◌, ◌≤◌, refl, sym, ap, subst, ◌∙◌, false, if◌then◌else◌, List, [], ◌∷◌, ◌++◌, Option,
  none, some, ok, Error, ◌*◌, arith, length, ltb, ◌-◌, ◌+◌, All,
}
use spop.Action.{Action}
use spop.Action.Wire.{IsSendable, actions_wire}
use spop.Request.{Request}
use spop.Transport.{read_deadline}
use spop.Frame.{Frame, new_frame, from_haproxy}
use spop.Frame.Read.{Source, read_limit}
use spop.Worker.{Setting, Worker, frame_limit, slot_limit, write_ack, length_field}
use spop.Worker.Loop.{Phase, arming, parked, starting, draining, set_deadline, acquire_slot}
use spop.Worker.Machine.{
  handling, loop_turn, release_slot, unparks, answers, leaves, Reach, onwards,
}
use spop.Client.Turns.{Obliging, Up, write_ack-Delivered, listening, listening-Up}
use spop.Client.Wire.{notify_received, notify_bytes, notify-Crosses}
use spop.Client.Replies.{ack, ack_bytes, ack-Crosses, ack_bytes_within}
use spop.Worker.Limits.{slot_limit-pos}
use spop.Client.Steps.{
  Ready, record-Up, Delivered-Up, notify_dispatched, answer-leaving, turned, hears,
}

module _ (s : Setting) (o : Obliging s.net) {handler : Request → List Action → Type 0}
    {whole : Source} where
  -- A slot for a NOTIFY is taken at once, when none is taken.
  takes_slot :
      {sent : List (List ℕ)} (f : Frame) (w : Worker) (src : Source)
      → Reach s handler whole
          (record { worker = w; source = src; phase = acquire_slot s f w; tasks = [] })
      → Ready sent 0 w
      → (n : ℕ) × Reach s handler whole
          (record { worker = record w { slots = n }; source = src; phase = starting f; tasks = [] })
        × ((x : Worker) → x.slots ≡ n → (release_slot s x ≡ record x { slots = 0 }))
  unfolding acquire_slot release_slot
  takes_slot f w src r ready = go (slot_limit s.config) refl r
    where
      released : Worker → Option ℕ → Worker
      released x none = x
      released x (some limit) = record x { slots = x.slots - 1 }

      phase_of : Option ℕ → Phase
      phase_of none = starting f
      phase_of (some limit) = if w.done then draining else parked f

      go :
          (l : Option ℕ)
          → slot_limit s.config ≡ l
          → Reach s handler whole
              (record { worker = w; source = src; phase = phase_of l; tasks = [] })
          → (n : ℕ) × Reach s handler whole (record {
            worker = record w { slots = n };
            source = src;
            phase = starting f;
            tasks = [];
          })
            × ((x : Worker) → x.slots ≡ n → (released x l ≡ record x { slots = 0 }))
      go none e q = (w.slots, q, λ x same. ap (λ n. record x { slots = n }) (same ∙ ready.taken))
      go (some limit) e q =
          let q' =
            subst
              (λ b. Reach s handler whole (record {
                worker = w;
                source = src;
                phase = if b then draining else parked f;
                tasks = [];
              }))
              ready.up.not_done q in
          (
            suc w.slots,
            onwards q' (
                unparks f limit ready.up.not_panicked refl e
                  (omega (arith, slot_limit-pos s e, ready.taken))),
            λ x same. ap (λ n. record x { slots = n - 1 }) (same ∙ ap suc ready.taken),
          )

  -- Notify: the handler runs, its ACK goes out and its slot is free again.
  pub acknowledges :
      {sent : List (List ℕ)} (w : Worker) (actions : List Action) (rest : List ℕ) (ending : Error)
      → Reach s handler whole (record {
        worker = w;
        source = record { input = notify_bytes ++ rest; ending = ending };
        phase = arming;
        tasks = [];
      })
      → Ready sent 0 w
      → ((req : Request) → handler req actions)
      → All IsSendable actions
      → 25 + length (actions_wire actions) ≤ 16 * 1024
      → (w' : Worker) × Reach s handler whole (record {
        worker = w';
        source = record { input = rest; ending = ending };
        phase = arming;
        tasks = [];
      })
        × Ready (ack_bytes actions ∷ sent) 0 w'
  unfolding frame_limit set_deadline read_deadline loop_turn
  acknowledges {sent} w actions rest ending r ready handles h room =
      let v = listening s o w in
      let src : Source = record { input = rest; ending = ending } in
      let up : Up sent v = listening-Up s o w ready.up in
      let limited : frame_limit w ≡ 16 * 1024 = ground (arith, ready.agreed_size) in
      let heard =
        hears s o w v _ src notify_received (acquire_slot s notify_received v) [] r ready.up
          (subst
            (λ limit.
              read_limit new_frame (record { input = notify_bytes ++ rest; ending = ending }) limit
                (some from_haproxy)
              ≡ ok (notify_received, src))
            (sym limited) ((notify-Crosses (16 * 1024) (omega arith)).taken rest ending))
          (notify_dispatched s v ready.is_ready) in
      let (n, taken, frees) = takes_slot notify_received v src heard (record {
        up = up;
        is_ready = ready.is_ready;
        agreed_size = ready.agreed_size;
        taken = ready.taken;
      }) in
      let x : Worker = record v { slots = n } in
      let x_up : Up sent x = record-Up v.ready v.max_frame n v.engine_id v up in
      let begun =
        turned s o
          (record { worker = x; source = src; phase = starting notify_received; tasks = [] })
          (record {
            worker = x;
            source = src;
            phase = arming;
            tasks = handling notify_received ∷ [];
          })
          taken x_up.not_panicked refl in
      let d =
        write_ack-Delivered s o (ack actions) (ack_bytes actions) x
          (ack-Crosses actions h (omega arith)).written
          (subst (λ limit. ltb limit (length_field (ack_bytes actions)) ≡ false) (sym limited)
            (ack_bytes_within actions (16 * 1024) room (omega arith)))
          x_up.not_closed x_up.not_parted in
      let out = write_ack s (ack actions) x in
      let answered =
        onwards begun (answers notify_received [] [] actions x_up.not_panicked refl (handles _)) in
      let answered' =
        subst
          (λ a.
            Reach s handler whole
              (record { worker = a.0; source = src; phase = arming; tasks = a.1 ∷ [] }))
          (answer-leaving s notify_received actions x out refl d.no_error) answered in
      let y_up : Up (ack_bytes actions ∷ sent) out.0 = Delivered-Up x_up d in
      let left = onwards answered' (leaves [] [] y_up.not_panicked refl) in
      (
        record out.0 { slots = 0 },
        subst
            (λ z.
              Reach s handler whole
                (record { worker = z; source = src; phase = arming; tasks = [] }))
            (frees out.0 (ap (λ z. z.slots) d.same)) left,
        record {
          up = record-Up out.0.ready out.0.max_frame 0 out.0.engine_id out.0 y_up;
          is_ready = ap (λ z. z.ready) d.same ∙ ready.is_ready;
          agreed_size = ap (λ z. z.max_frame) d.same ∙ ready.agreed_size;
          taken = refl;
        },
      )
