-- ===== src/WsServer.antt =====
-- app/ws-server/main.go: the handler of the WebSocket connections, with its counter, the health page
-- and the routes of `main`.
use gke_quick_prototype.Prelude.{
  ℕ, ◌+◌, ◌-◌, ◌%◌, ◌^◌, Bool, true, false, ◌&&◌, Option, none, some, [], ◌∷◌, if◌then◌else◌,
}
use gke_quick_prototype.Prelude.Text.{Text, codes, text_eq}
use gke_quick_prototype.Prelude.Int.{pos}
use gke_quick_prototype.Clock.{Time}
use gke_quick_prototype.Rfc3339.{format_rfc3339}

pub data MessageType : Type 0 where
  text_message binary_message : MessageType

pub record Message : Type 0 where
  pub msg_type : MessageType
  pub payload : Text

abbrev pub is_text_message : MessageType → Bool
is_text_message text_message = true
is_text_message binary_message = false

abbrev pub ping : Message
ping = record { msg_type = text_message; payload = codes "ping" }

abbrev pub pong : Message
pong = record { msg_type = text_message; payload = codes "pong" }

-- What the loop of handleWS writes for a message.
unfoldable pub reply : Message → Option Message
reply m = if is_text_message m.msg_type && text_eq m.payload (codes "ping") then some pong else none

-- activeConnections.Add(1) and activeConnections.Add(-1), as bit patterns of an int64
unfoldable pub add_one : ℕ → ℕ
add_one n = (n + 1) % 2 ^ 64

unfoldable pub subtract_one : ℕ → ℕ
subtract_one n = (n + (2 ^ 64 - 1)) % 2 ^ 64

-- The body of the health page; its status code is 200.
pub record Health : Type 0 where
  pub status : Text
  pub active_connections : ℕ
  pub ts : Text

unfoldable pub health_page : Time → ℕ → Health
health_page now active_connections = record {
  status = codes "ok";
  active_connections = active_connections;
  ts = format_rfc3339 (pos 0) now;
}

-- The handler of a path; the multiplexer answers 404 for `unknown_path`.
pub data WsRoute : Type 0 where
  websocket_route health_route unknown_path : WsRoute

unfoldable pub ws_route : Text → WsRoute
ws_route path =
    if text_eq path (codes "/ws")
    then websocket_route
    else if text_eq path (codes "/healthz")
    then health_route
    else unknown_path

-- Where `main` listens, from the value of PORT.
unfoldable pub listen_addr : Text → Text
listen_addr [] = codes ":8080"
listen_addr (c ∷ port) = b':' ∷ c ∷ port
