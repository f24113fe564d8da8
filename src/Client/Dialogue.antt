-- ===== src/Client/Dialogue.antt =====
-- The client and a worker, each of which gets what the other writes.
use spop.Base.{
  ℕ, ◌≡◌, ◌≤◌, refl, sym, ap, subst, ◌∙◌, true, List, [], ◌∷◌, ◌++◌, none, ok, Error, arith, length,
  All, ◌+◌, ◌*◌, append_assoc, append-nil,
}
use spop.TypedData.{IsString}
use spop.Action.{Action}
use spop.Action.Wire.{IsSendable, actions_wire}
use spop.Request.{Request}
use spop.Transport.{NetConn, write}
use spop.Transport.Calls.{writes}
use spop.Frame.{max_frame_size}
use spop.Frame.Read.{Source}
use spop.Handshake.{closed_by_server, status_normal}
use spop.Worker.{Setting}
use spop.Worker.Loop.{stopped}
use spop.Worker.Machine.{Machine, Reach, start}
use spop.Client.{
  Client, new_client, client_hello, client_notify, client_disconnect, check_hello, check_type, init,
  notify, stop,
}
use spop.Client.Sending.{TakesAll, exchange-answered}
use spop.Client.Turns.{Obliging}
use spop.Client.Wire.{
  hello_bytes, notify_bytes, goodbye_bytes, hello-Crosses, notify-Crosses, goodbye-Crosses,
}
use spop.Client.Replies.{
  ack_bytes, ack_received, ack-Crosses, agent_hello_bytes, agent_hello_received,
  agent_hello-Crosses, agent_disconnect_bytes, agent_disconnect_received, agent_disconnect-Crosses,
}
use spop.Client.Session.{greets, says_goodbye}
use spop.Client.Answers.{acknowledges}

-- The bytes of what was written, of which the latest comes first.
abbrev pub flow : List (List ℕ) → List ℕ
flow [] = []
flow (bytes ∷ sent) = flow sent ++ bytes

flow_three : (a b c : List ℕ) → flow (c ∷ b ∷ a ∷ []) ≡ a ++ (b ++ (c ++ []))
flow_three a b c = ap (λ l. (a ++ b) ++ l) (sym (append-nil c)) ∙ append_assoc a b (c ++ [])

module _ (net : NetConn) (takes : TakesAll net) (rest : List ℕ) (ending : Error)
    (calls : List _) where
  init-greeted :
      (size : ℕ)
      → size ≡ 16 * 1024
      → init net (record {
        calls = calls;
        source = record { input = agent_hello_bytes size ++ rest; ending = ending };
      })
        ≡ (
          record {
            calls = write hello_bytes ∷ calls;
            source = record { input = rest; ending = ending };
          },
          ok tt,
        )
  unfolding init check_hello
  init-greeted size e =
      exchange-answered net client_hello (agent_hello_received size) check_hello hello_bytes
        (record { input = rest; ending = ending })
        (record {
          calls = calls;
          source = record { input = agent_hello_bytes size ++ rest; ending = ending };
        })
        takes (hello-Crosses 256 (omega arith)).written
        ((agent_hello-Crosses size (omega (arith, e))).taken rest ending) refl

  notify-acknowledged :
      (actions : List Action)
      → All IsSendable actions
      → 25 + length (actions_wire actions) ≤ max_frame_size
      → notify net (record {
        calls = calls;
        source = record { input = ack_bytes actions ++ rest; ending = ending };
      })
        ≡ (
          record {
            calls = write notify_bytes ∷ calls;
            source = record { input = rest; ending = ending };
          },
          ok tt,
        )
  unfolding notify check_type
  notify-acknowledged actions h room =
      exchange-answered net client_notify (ack_received actions) (check_type _) notify_bytes
        (record { input = rest; ending = ending })
        (record {
          calls = calls;
          source = record { input = ack_bytes actions ++ rest; ending = ending };
        })
        takes (notify-Crosses 256 (omega arith)).written
        ((ack-Crosses actions h room).taken rest ending) refl

  stop-parted :
      (message : List ℕ)
      → IsString message
      → 85 + length message ≤ max_frame_size
      → stop net (record {
        calls = calls;
        source = record {
          input = agent_disconnect_bytes status_normal message ++ rest;
          ending = ending;
        };
      })
        ≡ (
          record {
            calls = write goodbye_bytes ∷ calls;
            source = record { input = rest; ending = ending };
          },
          ok tt,
        )
  unfolding stop check_type
  stop-parted message h room =
      exchange-answered net client_disconnect (agent_disconnect_received status_normal message)
        (check_type _) goodbye_bytes (record { input = rest; ending = ending })
        (record {
          calls = calls;
          source = record {
            input = agent_disconnect_bytes status_normal message ++ rest;
            ending = ending;
          };
        })
        takes (goodbye-Crosses 256 (omega arith)).written
        ((agent_disconnect-Crosses status_normal message (omega arith) h room).taken rest ending)
        refl

-- The client is through with its session, and the worker, which got what the client wrote, with
-- its own; what the client got is what the worker wrote.
pub record Parted (net : NetConn) (s : Setting) (handler : Request → List Action → Type 0)
    (ending : Error) (c : Client) (m : Machine) : Type 0 where
  pub init_succeeds : (init net c).1 ≡ ok tt
  pub notify_succeeds : (notify net (init net c).0).1 ≡ ok tt
  pub stop_succeeds : (stop net (notify net (init net c).0).0).1 ≡ ok tt
  pub all_read : (stop net (notify net (init net c).0).0).0.source.input ≡ []
  pub runs :
      Reach s handler
        (record {
          input = flow (writes (stop net (notify net (init net c).0).0).0.calls);
          ending = ending;
        })
        m
  pub is_stopped : m.phase ≡ stopped none
  pub no_tasks : m.tasks ≡ []
  pub nothing_left : m.source.input ≡ []
  pub is_closed : m.worker.conn.closed ≡ true
  pub no_slots : m.worker.slots ≡ 0
  pub carried : flow (writes m.worker.conn.calls) ≡ c.source.input

-- A client and a worker whose net.Conns take all that they are given get through a session: some
-- schedule of the worker, reading the bytes that Init, Notify and Stop write, ends without an
-- error, with no handler, no slot taken and its connection closed, and on the bytes that it has
-- written the three calls succeed. The handler may leave any well-formed actions that take at
-- most 16,359 bytes; the worker's farewell text is a string that fits a frame.
pub session :
    (net : NetConn) (s : Setting) (handler : Request → List Action → Type 0) (actions : List Action)
    (ending ending' : Error)
    → TakesAll net
    → Obliging s.net
    → ((req : Request) → handler req actions)
    → All IsSendable actions
    → 25 + length (actions_wire actions) ≤ 16 * 1024
    → IsString (s.render closed_by_server)
    → 85 + length (s.render closed_by_server) ≤ max_frame_size
    → (input : List ℕ) × (m : Machine) × Parted net s handler ending
        (new_client (record { input = input; ending = ending' }))
        m
session net s handler actions ending ending' takes o handles h room text fits =
    let bye : List ℕ = agent_disconnect_bytes status_normal (s.render closed_by_server) in
    let hello : List ℕ = agent_hello_bytes (16 * 1024) in
    let input : List ℕ = hello ++ (ack_bytes actions ++ (bye ++ [])) in
    let whole : Source = record {
      input = hello_bytes ++ (notify_bytes ++ (goodbye_bytes ++ []));
      ending = ending;
    } in
    let (w, r, ready) =
      greets s o {handler = handler} {whole = whole} _ (notify_bytes ++ (goodbye_bytes ++ []))
        ending start
        (record {
          not_closed = refl;
          not_done = refl;
          not_panicked = refl;
          not_parted = refl;
          carried = refl;
        })
        refl refl refl in
    let (w', r', ready') =
      acknowledges s o w actions (goodbye_bytes ++ []) ending r ready handles h room in
    let (w'', r'', e, shut, free) = says_goodbye s o w' [] ending r' ready' text fits in
    let e₁ =
      init-greeted net takes (ack_bytes actions ++ (bye ++ [])) ending' [] (16 * 1024) refl in
    let e₂ =
      notify-acknowledged net takes (bye ++ []) ending' (write hello_bytes ∷ []) actions h
        (omega arith) in
    let e₃ =
      stop-parted net takes [] ending' (write notify_bytes ∷ write hello_bytes ∷ [])
        (s.render closed_by_server) text fits in
    let e₁₂ = ap (λ x. notify net x.0) e₁ ∙ e₂ in
    let e₁₂₃ = ap (λ x. stop net x.0) e₁₂ ∙ e₃ in
    let m : Machine = record {
      worker = w'';
      source = record { input = []; ending = ending };
      phase = stopped none;
      tasks = [];
    } in
    (
      input,
      m,
      record {
        init_succeeds = ap (λ x. x.1) e₁;
        notify_succeeds = ap (λ x. x.1) e₁₂;
        stop_succeeds = ap (λ x. x.1) e₁₂₃;
        all_read = ap (λ x. x.0.source.input) e₁₂₃;
        runs =
            subst (λ bytes. Reach s handler (record { input = bytes; ending = ending }) m)
              (sym (flow_three hello_bytes notify_bytes goodbye_bytes)
                ∙ sym (ap (λ x. flow (writes x.0.calls)) e₁₂₃))
              r'';
        is_stopped = refl;
        no_tasks = refl;
        nothing_left = refl;
        is_closed = shut;
        no_slots = free;
        carried = ap flow e ∙ flow_three hello (ack_bytes actions) bye;
      },
    )
