-- ===== src/Examples/TerminalCases.antt =====
-- A terminal session: two inputs and a change of the window's size between them.
use gke_quick_prototype.Prelude.{none, ◌≡◌, ◌++◌, refl, [], ◌∷◌, arith}
use gke_quick_prototype.Prelude.Text.{codes}
use gke_quick_prototype.Terminal.{
  WsStream, is_control, read_message, read, write_message, stream_call, exec_stream, executed,
  terminal_session,
}
use gke_quick_prototype.WsServer.{binary_message}
use gke_quick_prototype.Terminal.Session.{answered, terminal_session_lem}
use gke_quick_prototype.Examples.Setup.{terminal_inputs}
use gke_quick_prototype.Terminal.Delivery.{
  payload, remaining, waiting, read_each, read_each-delivers,
}

abbrev session : WsStream
session = record { read_buf = []; incoming = codes "ls -l" ∷ codes "{resize}" ∷ codes "pwd" ∷ [] }

session_bytes : remaining session ≡ codes "ls -lpwd"
unfolding payload is_control
session_bytes = refl

-- A brace that the user types is a message of its own, and is lost.
typed_brace :
    (read 8 (record { read_buf = []; incoming = codes "{" ∷ codes "a" ∷ [] })).1
    ≡ record { read_buf = []; incoming = codes "a" ∷ [] }
unfolding read read_message is_control
typed_brace = refl

-- The session of the set-up: the resize message does not reach the shell.
whole_session : terminal_session terminal_inputs ≡ record {
  stream = record { read_buf = []; incoming = [] };
  stdin = codes "ls\n";
  sent =
      record { msg_type = binary_message; payload = codes "ls" }
      ∷ record { msg_type = binary_message; payload = codes "bin" }
      ∷ [];
}
unfolding terminal_session executed exec_stream stream_call read read_message is_control
    write_message
whole_session = refl

terminal_session_lem_example :
    ((terminal_session terminal_inputs).stdin ++ remaining (terminal_session terminal_inputs).stream
      ≡ payload terminal_inputs.incoming)
    × ((terminal_session terminal_inputs).sent ≡ answered terminal_inputs none)
terminal_session_lem_example = terminal_session_lem terminal_inputs

abbrev one_message : WsStream
one_message = record { read_buf = []; incoming = codes "ls" ∷ [] }

read_each-delivers_example :
    (read_each (2 ∷ 2 ∷ 2 ∷ []) one_message).0
    ≡ one_message.read_buf ++ payload one_message.incoming
unfolding waiting
read_each-delivers_example =
    read_each-delivers (2 ∷ 2 ∷ 2 ∷ []) one_message (omega arith, (omega arith, (omega arith, tt)))
      (omega arith)
