-- ===== src/Examples/SessionCases.antt =====
-- A sandbox's WebSocket session and the server behind it on concrete inputs.
use gke_quick_prototype.Prelude.{
  ◌+◌, ◌≡◌, refl, false, true, none, some, [], ◌∷◌, ◌++◌, arith, if◌then◌else◌,
}
use gke_quick_prototype.Prelude.Int.{pos, ◌+ℤ◌}
use gke_quick_prototype.Prelude.Text.{codes, text_eq, strip_prefix, index, replace_first}
use gke_quick_prototype.Scenario.{at_start}
use gke_quick_prototype.WsSession.{
  ticked, message, read_failed, Attempt, derive_audience, cut_path, ws_session_loop,
}
use gke_quick_prototype.WsSession.Audience.{starts_ws, audience_of-derive_audience}
use gke_quick_prototype.IdToken.{
  query_escape, escape_byte, metadata_url, trim_space, drop_any, strip_any, reverse, Metadata,
  body_read, token_answered, requested, fetch_id_token, connect_header,
}
use gke_quick_prototype.IdToken.Query.{audience_of}
use gke_quick_prototype.Provision.{ok, err}
use gke_quick_prototype.Prelude.Map.{insert}
use gke_quick_prototype.Examples.Setup.{name_a}
use gke_quick_prototype.WsSession.Session.{IsSession, ws_session_loop-IsSession}
use gke_quick_prototype.Lifetime.{days_in}
use gke_quick_prototype.Rfc3339.{format_rfc3339, civil, year_and_day, walk_months}
use gke_quick_prototype.WsServer.{
  listen_addr, health_page, websocket_route, unknown_path, ws_route, add_one, ping,
}
use gke_quick_prototype.Heartbeat.{Link, fresh, pings, Server, accepts, start, later, LinkRun}
use gke_quick_prototype.Heartbeat.Accounts.{
  IsBalanced, fresh-IsAccounted, LinkStep-IsAccounted, Reach-IsBalanced,
}
use gke_quick_prototype.Heartbeat.Echo.{catches_up}

audience_of-derive_audience_example :
    audience_of (metadata_url (derive_audience (codes "wss://" ++ codes "s-x.app" ++ codes "/ws")))
    ≡ some (
        if starts_ws (codes "s-x.app")
        then codes "https:/"
        else codes "https://" ++ codes "s-x.app")
audience_of-derive_audience_example =
    audience_of-derive_audience (codes "s-x.app") (omega arith) (omega arith)

escaped_address : query_escape (codes "https://a b") ≡ codes "https%3A%2F%2Fa+b"
unfolding query_escape escape_byte
escaped_address = refl

-- A space of two bytes is trimmed as well.
trimmed_token : trim_space (9 ∷ 32 ∷ codes "a b" ++ 194 ∷ 160 ∷ 10 ∷ []) ≡ codes "a b"
unfolding trim_space drop_any strip_any strip_prefix reverse
trimmed_token = refl

-- The metadata server answers with a token, or not at all.
abbrev granting : Metadata
granting = record {
  request_error = λ u. none;
  answer = λ q. ok (record { code = 200; body = codes "ey.J" ++ 10 ∷ []; read_error = none });
}

abbrev absent : Metadata
absent = record { request_error = λ u. none; answer = λ q. err (codes "timeout") }

two_headers :
    (connect_header name_a (fetch_id_token granting (codes "https://s"))
      ≡ (codes "X-Pod-Name", name_a) ∷ (codes "Authorization", codes "Bearer ey.J") ∷ [])
    × (connect_header name_a (fetch_id_token absent (codes "https://s"))
        ≡ (codes "X-Pod-Name", name_a) ∷ [])
unfolding connect_header fetch_id_token requested token_answered body_read trim_space drop_any
    strip_any strip_prefix reverse insert text_eq
two_headers = (refl, refl)

-- A host that begins with `ws` loses its name.
ws_host : derive_audience (codes "wss://ws.example.org/ws") ≡ codes "https:/"
unfolding derive_audience cut_path index replace_first strip_prefix
ws_host = refl

abbrev one_attempt : Attempt
one_attempt = record {
  cancelled_before = false;
  metadata = absent;
  dial = λ u h. none;
  events = ticked none ∷ message (codes "pong") ∷ read_failed (codes "eof") ∷ [];
  cancelled_after = true;
}

ws_session_loop-IsSession_example :
    IsSession 1 at_start
      (ws_session_loop (codes "wss://s/ws") name_a [] (one_attempt ∷ []) at_start)
ws_session_loop-IsSession_example =
    ws_session_loop-IsSession (codes "wss://s/ws") name_a [] (one_attempt ∷ []) at_start refl

abbrev one_client : Server
one_client = record { active_connections = add_one 0; links = fresh ∷ [] }

Reach-IsBalanced_example : IsBalanced one_client
Reach-IsBalanced_example = Reach-IsBalanced (later start accepts)

-- A ping is on its way, and not counted yet.
abbrev pinged : Link
pinged = record fresh { to_server = fresh.to_server ++ ping ∷ []; uncounted = 1 }

catches_up_example :
    (m : Link) × LinkRun pinged m
    × (m.uncounted ≡ 0)
    × (m.counters.pings_sent ≡ pinged.counters.pings_sent + pinged.uncounted)
    × (m.counters.pongs_received ≡ pinged.counters.pings_sent + pinged.uncounted)
catches_up_example =
    catches_up pinged (LinkStep-IsAccounted fresh-IsAccounted (pings refl refl)) refl

quiet_server :
    health_page (pos 0) 3
    ≡ record { status = codes "ok"; active_connections = 3; ts = codes "0001-01-01T00:00:00Z" }
unfolding health_page format_rfc3339 civil year_and_day walk_months days_in ◌+ℤ◌
quiet_server = refl

both_routes :
    (ws_route (codes "/ws") ≡ websocket_route) × (ws_route (codes "/metrics") ≡ unknown_path)
unfolding ws_route text_eq
both_routes = (refl, refl)

default_port : (listen_addr [] ≡ codes ":8080") × (listen_addr (codes "9000") ≡ codes ":9000")
unfolding listen_addr
default_port = (refl, refl)
