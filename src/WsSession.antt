-- ===== src/WsSession.antt =====
-- app/sandbox/ws.go: the audience of the identity token, one WebSocket connection with its ping and
-- pong loop, and the loop that reconnects.
pub mod Audience
pub mod Session
use gke_quick_prototype.Prelude.{
  ℕ, ◌+◌, Bool, true, false, Option, none, some, List, [], ◌∷◌, ◌++◌, ltb, if◌then◌else◌,
}
use gke_quick_prototype.Prelude.Text.{Text, codes, text_eq, take, index, replace_first}
use gke_quick_prototype.Prelude.Map.{Map}
use gke_quick_prototype.IdToken.{Metadata, fetch_id_token, connect_header}
use gke_quick_prototype.Scenario.{SandboxState, set_ws_connected}

-- if idx := strings.Index(audience, "/ws"); idx > 0 { … }
unfoldable pub cut_path : Text → Text
cut_path audience = elim (index (codes "/ws") audience) [
  | some i ↦ if ltb 0 i then take i audience else audience
  | none ↦ audience
]

unfoldable pub derive_audience : Text → Text
derive_audience ws_url = cut_path (
    replace_first (codes "ws://") (codes "http://")
      (replace_first (codes "wss://") (codes "https://") ws_url))

pub record Counters : Type 0 where
  pub pings_sent : ℕ
  pub pongs_received : ℕ

-- What happens on a connection: the three channels of the `select`, a tick with the error of its
-- write, and a message that the reading goroutine gets.
pub data WsEvent : Type 0 where
  done : WsEvent
  read_failed : Text → WsEvent
  ticked : Option Text → WsEvent
  message : Text → WsEvent

pub data EndReason : Type 0 where
  dial_error read_error write_error : Text → EndReason
  context_cancelled : EndReason

unfoldable pub count_ping : Counters → Counters
count_ping n = record n { pings_sent = n.pings_sent + 1 }

unfoldable pub count_message : Text → Counters → Counters
count_message msg n =
    if text_eq msg (codes "pong") then record n { pongs_received = n.pongs_received + 1 } else n

-- The loop of wsConnect: the reason of its end, `none` as long as it goes on.
unfoldable pub ws_loop : List WsEvent → Counters → Option EndReason × Counters
ws_loop [] n = (none, n)
ws_loop (done ∷ rest) n = (some context_cancelled, n)
ws_loop (read_failed e ∷ rest) n = (some (read_error e), n)
ws_loop (ticked (some e) ∷ rest) n = (some (write_error e), n)
ws_loop (ticked none ∷ rest) n = ws_loop rest (count_ping n)
ws_loop (message msg ∷ rest) n = ws_loop rest (count_message msg n)

-- One attempt: the metadata server, the error of the dialer at an address and with headers, and what
-- happens on the connection.
pub record Attempt : Type 0 where
  pub cancelled_before : Bool
  pub metadata : Metadata
  pub dial : Text → Map Text → Option Text
  pub events : List WsEvent
  pub cancelled_after : Bool

abbrev pub no_counts : Counters
no_counts = record { pings_sent = 0; pongs_received = 0 }

unfoldable pub dialled : Option Text → List WsEvent → SandboxState → Option EndReason × SandboxState
dialled (some e) events s = (some (dial_error e), s)
dialled none events s = ((ws_loop events no_counts).0, set_ws_connected true s)

-- The arguments of wsConnect.
pub record Target : Type 0 where
  pub ws_url : Text
  pub audience : Text
  pub pod_name : Text

unfoldable pub ws_connect : Target → Attempt → SandboxState → Option EndReason × SandboxState
ws_connect t a s =
    let header = connect_header t.pod_name (fetch_id_token a.metadata t.audience) in
    dialled (a.dial t.ws_url header) a.events s

pub record SessionState : Type 0 where
  pub state : SandboxState
  pub reconnect_count : ℕ
  pub returned : Bool

-- A round of wsSessionLoop past its first `select`.
unfoldable pub reconnected : Bool → Option EndReason × SandboxState → SessionState → SessionState
reconnected cancelled (none, s) w = record w { state = s }
reconnected cancelled (some reason, s) w = record {
  state = set_ws_connected false s;
  reconnect_count = w.reconnect_count + 1;
  returned = cancelled;
}

unfoldable pub session_round : Target → Attempt → SessionState → SessionState
session_round t a w =
    if a.cancelled_before
    then record w { state = set_ws_connected false w.state; returned = true }
    else reconnected a.cancelled_after (ws_connect t a w.state) w

-- The attempts one after the other; a connection that goes on, and a return, are the end of them.
unfoldable pub is_over : SessionState → Bool
is_over w = if w.returned then true else w.state.ws_connected

unfoldable pub session_loop : Target → List Attempt → SessionState → SessionState
session_loop t [] w = w
session_loop t (a ∷ rest) w =
    let next = session_loop t rest (session_round t a w) in if is_over w then w else next

-- os.Getenv("POD_NAME"), or a name made of the process number
abbrev pub pod_name_or : Text → Text → Text
pod_name_or [] pid = codes "local-" ++ pid
pod_name_or (c ∷ name) pid = c ∷ name

abbrev pub target_of : Text → Text → Text → Target
target_of ws_url pod_name pid = record {
  ws_url = ws_url;
  audience = derive_audience ws_url;
  pod_name = pod_name_or pod_name pid;
}

-- On the values of WS_SERVER_URL and POD_NAME and the process number. Without the address of a
-- server there is no session.
unfoldable pub ws_session_loop : Text → Text → Text → List Attempt → SandboxState → SessionState
ws_session_loop [] pod_name pid attempts s = record {
  state = s;
  reconnect_count = 0;
  returned = true;
}
ws_session_loop (c ∷ url) pod_name pid attempts s =
    session_loop (target_of (c ∷ url) pod_name pid) attempts
      (record { state = s; reconnect_count = 0; returned = false })
