-- ===== src/Terminal/Session.antt =====
-- A whole terminal session, whatever the order of its reads and writes.
use gke_quick_prototype.Prelude.{
  ◌≡◌, refl, sym, ap, ◌∙◌, Option, none, some, List, [], ◌∷◌, ◌++◌, append_assoc, append-nil,
}
use gke_quick_prototype.Prelude.Text.{Text, codes}
use gke_quick_prototype.WsServer.{Message, binary_message}
use gke_quick_prototype.Terminal.{
  write_message, ws_error, StreamCall, reads, writes, TerminalState, stream_call, exec_stream,
  TerminalEnv, fresh_session, executed, terminal_session,
}
use gke_quick_prototype.Terminal.Delivery.{payload, remaining, read-IsSound}

-- What the shell writes where the connection takes it, each write a message of its own.
unfoldable pub output : List StreamCall → List Message
output [] = []
output (reads size ∷ calls) = output calls
output (writes (some e) p ∷ calls) = output calls
output (writes none p ∷ calls) = record { msg_type = binary_message; payload = p } ∷ output calls

abbrev pub IsFaithful : TerminalState → List StreamCall → TerminalState → Type 0
IsFaithful s calls u =
    (u.stdin ++ remaining u.stream ≡ s.stdin ++ remaining s.stream)
    × (u.sent ≡ s.sent ++ output calls)

output-cons :
    (call : StreamCall) (calls : List StreamCall)
    → output (call ∷ calls) ≡ output (call ∷ []) ++ output calls
unfolding output
output-cons (reads size) calls = refl
output-cons (writes (some e) p) calls = refl
output-cons (writes none p) calls = refl

stream_call-IsFaithful :
    (call : StreamCall) (s : TerminalState) → IsFaithful s (call ∷ []) (stream_call call s)
unfolding stream_call output write_message
stream_call-IsFaithful (reads size) s = (
  append_assoc s.stdin _ _ ∙ ap (λ t. s.stdin ++ t) (read-IsSound size s.stream).kept,
  sym (append-nil s.sent),
)
stream_call-IsFaithful (writes (some e) p) s = (refl, refl)
stream_call-IsFaithful (writes none p) s = (refl, refl)

exec_stream-IsFaithful :
    (calls : List StreamCall) (s : TerminalState) → IsFaithful s calls (exec_stream calls s)
unfolding exec_stream
exec_stream-IsFaithful [] s = (refl, unfold output in sym (append-nil s.sent))
exec_stream-IsFaithful (call ∷ calls) s =
    let first = stream_call-IsFaithful call s in
    let rest = exec_stream-IsFaithful calls (stream_call call s) in
    (
      rest.0 ∙ first.0,
      rest.1
          ∙ ap (λ l. l ++ output calls) first.1
          ∙ append_assoc s.sent (output (call ∷ [])) (output calls)
          ∙ ap (λ l. s.sent ++ l) (sym (output-cons call calls)),
    )

abbrev pub answered : TerminalEnv → Option Text → List Message
answered env none = output env.calls
answered env (some e) = ws_error (codes "failed to create exec session: " ++ e) ∷ []

executed_lem :
    (env : TerminalEnv) (o : Option Text)
    → ((executed env o).stdin ++ remaining (executed env o).stream ≡ payload env.incoming)
      × ((executed env o).sent ≡ answered env o)
unfolding executed
executed_lem env (some e) = (refl, refl)
executed_lem env none = exec_stream-IsFaithful env.calls (fresh_session env.incoming)

-- A terminal session whose upgrade has succeeded, whatever the order of its reads and writes and
-- the sizes of its buffers: what the shell has got and what is still to be read make up the user's
-- messages in order, without those that start with a brace; and the user gets each write that the
-- connection takes, in order, or one message with the error if the executor cannot be made.
pub terminal_session_lem :
    (env : TerminalEnv)
    → ((terminal_session env).stdin ++ remaining (terminal_session env).stream
        ≡ payload env.incoming)
      × ((terminal_session env).sent ≡ answered env env.executor_error)
unfolding terminal_session
terminal_session_lem env = executed_lem env env.executor_error
