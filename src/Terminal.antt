-- ===== src/Terminal.antt =====
-- app/controller/terminal.go: a terminal session. `wsStream.Read` hands the messages of a WebSocket
-- to the exec stream as one sequence of bytes, and `wsStream.Write` hands its output back.
pub mod Delivery
pub mod Session
use gke_quick_prototype.Prelude.{
  ℕ, Bool, false, Option, none, some, List, [], ◌∷◌, ◌++◌, ◌==◌, length, if◌then◌else◌,
}
use gke_quick_prototype.Prelude.Text.{Text, codes, take, drop}
use gke_quick_prototype.WsServer.{Message, text_message, binary_message}
use gke_quick_prototype.Http.{Response, terminal_output}

-- `incoming` are the messages that ReadMessage has yet to return; behind them it fails.
pub record WsStream : Type 0 where
  pub read_buf : Text
  pub incoming : List Text

-- len(msg) > 0 && msg[0] == '{'
unfoldable pub is_control : Text → Bool
is_control [] = false
is_control (c ∷ msg) = c == b'{'

-- Past the first `if`: the read buffer is empty.
unfoldable pub read_message : ℕ → List Text → Option Text × WsStream
read_message size [] = (none, record { read_buf = []; incoming = [] })
read_message size (msg ∷ rest) =
    if is_control msg
    then (some [], record { read_buf = []; incoming = rest })
    else (some (take size msg), record { read_buf = drop size msg; incoming = rest })

-- A read into a buffer of `size` bytes: the bytes that are put there, or `none` for an error.
unfoldable pub read : ℕ → WsStream → Option Text × WsStream
read size s = elim s.read_buf [
  | [] ↦ read_message size s.incoming
  | c ∷ buf ↦ (some (take size (c ∷ buf)), record s { read_buf = drop size (c ∷ buf) })
]

-- conn.WriteMessage(websocket.BinaryMessage, p), with its error: what Write returns, and what the
-- client gets.
unfoldable pub write_message : Option Text → Text → (ℕ × Option Text) × List Message
write_message (some e) p = ((0, some e), [])
write_message none p = ((length p, none), record { msg_type = binary_message; payload = p } ∷ [])

-- writeWSError
unfoldable pub ws_error : Text → Message
ws_error msg = record {
  msg_type = text_message;
  payload = 13 ∷ 10 ∷ 27 ∷ codes "[31mError: " ++ msg ++ 27 ∷ codes "[0m" ++ 13 ∷ 10 ∷ [];
}

-- The calls of the stream by the executor, in the order in which they come to the connection: a
-- read into a buffer, or a write of these bytes with the error of WriteMessage.
pub data StreamCall : Type 0 where
  reads : ℕ → StreamCall
  writes : Option Text → Text → StreamCall

-- A session: the stream, what the shell has got, and what the client has got.
pub record TerminalState : Type 0 where
  pub stream : WsStream
  pub stdin : Text
  pub sent : List Message

abbrev pub or_nothing : Option Text → Text
or_nothing none = []
or_nothing (some t) = t

unfoldable pub stream_call : StreamCall → TerminalState → TerminalState
stream_call (reads size) s =
    let (o, stream) = read size s.stream in
    record s { stream = stream; stdin = s.stdin ++ or_nothing o }
stream_call (writes error p) s = record s { sent = s.sent ++ (write_message error p).1 }

unfoldable pub exec_stream : List StreamCall → TerminalState → TerminalState
exec_stream [] s = s
exec_stream (call ∷ calls) s = exec_stream calls (stream_call call s)

-- What the handler gets from outside: the upgrader's own answer where it refuses, the messages of
-- the client, the error of the executor's constructor, and the calls of the executor.
pub record TerminalEnv : Type 0 where
  pub refusal : Option Response
  pub incoming : List Text
  pub executor_error : Option Text
  pub calls : List StreamCall

abbrev pub fresh_session : List Text → TerminalState
fresh_session incoming = record {
  stream = record { read_buf = []; incoming = incoming };
  stdin = [];
  sent = [];
}

unfoldable pub executed : TerminalEnv → Option Text → TerminalState
executed env (some e) = record (fresh_session env.incoming) {
  sent = ws_error (codes "failed to create exec session: " ++ e) ∷ [];
}
executed env none = exec_stream env.calls (fresh_session env.incoming)

-- handleTerminal behind the upgrade.
unfoldable pub terminal_session : TerminalEnv → TerminalState
terminal_session env = executed env env.executor_error

-- handleTerminal for a sandbox that is known.
unfoldable pub terminal_answer : TerminalEnv → Option Response → Response
terminal_answer env (some refused) = refused
terminal_answer env none = record { code = 101; body = terminal_output (terminal_session env).sent }
