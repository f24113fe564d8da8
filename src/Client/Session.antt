-- ===== src/Client/Session.antt =====
-- What a worker does with the client's Init and Stop.
use spop.Base.{
  ℕ, ◌≡◌, ◌≤◌, refl, sym, ap, subst, ◌∙◌, true, false, List, [], ◌∷◌, ◌++◌, none, some, ok, Error,
  ◌*◌, arith, length, ◌+◌,
}
use spop.TypedData.{IsString}
use spop.Action.{Action}
use spop.Request.{Request}
use spop.Worker.Session.{close_conn-writes}
use spop.Transport.{read_deadline}
use spop.Transport.Calls.{writes}
use spop.Frame.{new_frame, from_haproxy, max_frame_size}
use spop.Frame.Read.{Source, read_limit}
use spop.Handshake.{closed_by_server, status_normal}
use spop.Worker.{
  Setting, Worker, close_worker, frame_limit, send_agent_hello, send_agent_disconnect, agent_hello,
  agent_disconnect, send_frame,
}
use spop.Worker.Loop.{arming, closing, stopped, set_deadline}
use spop.Worker.Machine.{loop_turn, Reach}
use spop.Client.Turns.{Obliging, Up, send_frame-Delivered, listening, listening-Up}
use spop.Client.Wire.{
  hello_received, goodbye_received, hello_bytes, goodbye_bytes, hello-Crosses, goodbye-Crosses,
}
use spop.Client.Replies.{
  agent_hello_bytes, agent_hello-Crosses, agent_disconnect_bytes, agent_disconnect-Crosses,
}
use spop.Client.Steps.{
  Ready, record-Up, Delivered-Up, close_conn-closed, hello_dispatched, disconnect_dispatched,
  turned, hears,
}

module _ (s : Setting) (o : Obliging s.net) {handler : Request → List Action → Type 0}
    {whole : Source} where
  -- Init: the AGENT-HELLO goes out and the worker is ready.
  pub greets :
      (w : Worker) (rest : List ℕ) (ending : Error)
      → Reach s handler whole (record {
        worker = w;
        source = record { input = hello_bytes ++ rest; ending = ending };
        phase = arming;
        tasks = [];
      })
      → Up [] w
      → w.ready ≡ false
      → w.max_frame ≡ 0
      → w.slots ≡ 0
      → (w' : Worker) × Reach s handler whole (record {
        worker = w';
        source = record { input = rest; ending = ending };
        phase = arming;
        tasks = [];
      })
        × Ready (agent_hello_bytes (16 * 1024) ∷ []) 0 w'
  unfolding frame_limit set_deadline read_deadline send_agent_hello
  greets w rest ending r u fresh unlimited free =
      let v = listening s o w in
      let agreed_on : Worker = record v { max_frame = 16 * 1024; engine_id = [] } in
      let up : Up [] agreed_on =
        record-Up v.ready (16 * 1024) w.slots [] v (listening-Up s o w u) in
      let d =
        send_frame-Delivered s o (agent_hello (16 * 1024)) (agent_hello_bytes (16 * 1024)) agreed_on
          (agent_hello-Crosses (16 * 1024) (omega arith)).written up.not_closed in
      let out = send_frame s (agent_hello (16 * 1024)) agreed_on in
      let limited : frame_limit w ≡ max_frame_size = ground (arith, unlimited) in
      (
        record out.0 { ready = true },
        hears s o w _ _ _ hello_received arming [] r u
            (subst
              (λ limit.
                read_limit new_frame (record { input = hello_bytes ++ rest; ending = ending }) limit
                  (some from_haproxy)
                ≡ ok (hello_received, record { input = rest; ending = ending }))
              (sym limited) ((hello-Crosses max_frame_size (omega arith)).taken rest ending))
            (hello_dispatched s v out fresh refl d.no_error),
        record {
          up = record-Up true out.0.max_frame out.0.slots out.0.engine_id out.0 (Delivered-Up up d);
          is_ready = refl;
          agreed_size = ap (λ x. x.max_frame) d.same;
          taken = ap (λ x. x.slots) d.same ∙ free;
        },
      )

  -- Stop: the AGENT-DISCONNECT goes out, the connection is closed, and the worker is done.
  pub says_goodbye :
      {sent : List (List ℕ)} (w : Worker) (rest : List ℕ) (ending : Error)
      → Reach s handler whole (record {
        worker = w;
        source = record { input = goodbye_bytes ++ rest; ending = ending };
        phase = arming;
        tasks = [];
      })
      → Ready sent 0 w
      → IsString (s.render closed_by_server)
      → 85 + length (s.render closed_by_server) ≤ max_frame_size
      → (w' : Worker) × Reach s handler whole (record {
        worker = w';
        source = record { input = rest; ending = ending };
        phase = stopped none;
        tasks = [];
      })
        × (writes w'.conn.calls
            ≡ agent_disconnect_bytes status_normal (s.render closed_by_server) ∷ sent)
        × (w'.conn.closed ≡ true)
        × (w'.slots ≡ 0)
  unfolding frame_limit set_deadline read_deadline loop_turn send_agent_disconnect close_worker
  says_goodbye {sent} w rest ending r ready text room =
      let v = listening s o w in
      let src : Source = record { input = rest; ending = ending } in
      let message : List ℕ = s.render closed_by_server in
      let limited : frame_limit w ≡ 16 * 1024 = ground (arith, ready.agreed_size) in
      let up : Up sent v = listening-Up s o w ready.up in
      let parting : Worker = record v { goodbye_sent = true } in
      let d =
        send_frame-Delivered s o (agent_disconnect status_normal message)
          (agent_disconnect_bytes status_normal message) parting
          (agent_disconnect-Crosses status_normal message (omega arith) text room).written
          up.not_closed in
      let out = send_frame s (agent_disconnect status_normal message) parting in
      let heard =
        hears s o w out.0 _ src goodbye_received (closing none) [] r ready.up
          (subst
            (λ limit.
              read_limit new_frame (record { input = goodbye_bytes ++ rest; ending = ending }) limit
                (some from_haproxy)
              ≡ ok (goodbye_received, src))
            (sym limited) ((goodbye-Crosses (16 * 1024) (omega arith)).taken rest ending))
          (disconnect_dispatched s v out ready.is_ready refl d.no_error) in
      let stop_turn =
        turned s o (record { worker = out.0; source = src; phase = closing none; tasks = [] })
          (record {
            worker = record (close_worker s out.0) { cancelled = true };
            source = src;
            phase = stopped none;
            tasks = [];
          })
          heard (ap (λ z. z.panicked) d.same ∙ up.not_panicked) refl in
      (
        record (close_worker s out.0) { cancelled = true },
        stop_turn,
        close_conn-writes s.net out.0.conn
            ∙ d.carried
            ∙ ap (λ l. agent_disconnect_bytes status_normal message ∷ l) up.carried,
        close_conn-closed s.net out.0.conn,
        ap (λ z. z.slots) d.same ∙ ready.taken,
      )
