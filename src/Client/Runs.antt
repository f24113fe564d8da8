-- ===== src/Client/Runs.antt =====
-- A run of a client and a worker at concrete inputs.
use spop.Base.{ℕ, refl, List, [], none, length, end_of_file, arith, pos}
use spop.Action.{Action}
use spop.Request.{Request}
use spop.Transport.{NetConn}
use spop.Worker.{Setting}
use spop.Worker.Machine.{Machine}
use spop.Client.{new_client}
use spop.Client.Turns.{Obliging}
use spop.Client.Dialogue.{Parted, session}

abbrev willing : NetConn
willing = record {
  on_write = λ calls frame. (length frame, none);
  on_close = λ calls. none;
  on_write_deadline = λ calls t. none;
  on_read_deadline = λ calls t. none;
}

abbrev setting : Setting
setting = record {
  net = willing;
  render = λ notice. [];
  clock = length;
  config = record {
    timeouts = record { handshake = pos 5; idle = pos 0; write = pos 3 };
    max_in_flight = pos 1;
  };
}

abbrev AnyActions : Request → List Action → Type 0
AnyActions req actions = Unit

willing-Obliging : Obliging willing
willing-Obliging = record {
  takes = λ calls bytes. refl;
  takes_write_deadline = λ calls t. refl;
  takes_read_deadline = λ calls t. refl;
}

session_example :
    (input : List ℕ) × (m : Machine) × Parted willing setting AnyActions end_of_file
      (new_client (record { input = input; ending = end_of_file }))
      m
session_example =
    session willing setting AnyActions [] end_of_file end_of_file (λ calls bytes. refl)
      willing-Obliging (λ req. tt) tt (omega arith) (tt, omega arith) (omega arith)
