-- ===== src/Heartbeat.antt =====
-- The sandboxes' WebSocket sessions (app/sandbox/ws.go) and the server that answers them
-- (app/ws-server/main.go), as steps of one system: clients, server and connections take turns in
-- any order. A connection carries messages in order, and loses what is on its way when it is cut.
pub mod Accounts
pub mod Echo
use gke_quick_prototype.Prelude.{
  ℕ, suc, ◌≡◌, Bool, true, false, Option, none, some, List, [], ◌∷◌, ◌++◌,
}
use gke_quick_prototype.WsSession.{Counters, no_counts, count_ping, count_message}
use gke_quick_prototype.WsServer.{Message, ping, reply, add_one, subtract_one}

-- A connection between the upgrade and the end of the server's handler. `connected` is false from
-- the cut on, and `uncounted` is how many pings are written and not yet in `pings_sent`.
pub record Link : Type 0 where
  pub connected : Bool
  pub to_server : List Message
  pub to_client : List Message
  pub counters : Counters
  pub uncounted : ℕ

abbrev pub fresh : Link
fresh = record {
  connected = true;
  to_server = [];
  to_client = [];
  counters = no_counts;
  uncounted = 0;
}

abbrev pub replies : Option Message → List Message
replies none = []
replies (some m) = m ∷ []

pub data LinkStep (l : Link) : Link → Type 0 where
  -- The client's ticker, and its write. It has counted its last ping before.
  pings :
      l.connected ≡ true
      → l.uncounted ≡ 0
      → LinkStep l (record l { to_server = l.to_server ++ ping ∷ []; uncounted = 1 })
  -- The count of a ping that is written.
  counts :
      (n : ℕ)
      → l.uncounted ≡ suc n
      → LinkStep l (record l { counters = count_ping l.counters; uncounted = n })
  -- The server reads a message, and writes its reply.
  serves :
      (m : Message) (rest : List Message)
      → l.to_server ≡ m ∷ rest
      → LinkStep l (record l { to_server = rest; to_client = l.to_client ++ replies (reply m) })
  -- The client's reading goroutine gets a message.
  reads :
      (m : Message) (rest : List Message)
      → l.to_client ≡ m ∷ rest
      → LinkStep l (record l { to_client = rest; counters = count_message m.payload l.counters })
  cuts : LinkStep l (record l { connected = false; to_server = []; to_client = [] })

-- The server, with the connections whose handlers run.
pub record Server : Type 0 where
  pub active_connections : ℕ
  pub links : List Link

pub data ServerStep (s : Server) : Server → Type 0 where
  accepts :
      ServerStep s
        (record { active_connections = add_one s.active_connections; links = fresh ∷ s.links })
  moves :
      (before : List Link) (l l' : Link) (after : List Link)
      → s.links ≡ before ++ l ∷ after
      → LinkStep l l'
      → ServerStep s (record s { links = before ++ l' ∷ after })
  -- The handler returns: its deferred function runs.
  closes :
      (before : List Link) (l : Link) (after : List Link)
      → s.links ≡ before ++ l ∷ after
      → ServerStep s (record {
        active_connections = subtract_one s.active_connections;
        links = before ++ after;
      })

abbrev pub empty_server : Server
empty_server = record { active_connections = 0; links = [] }

pub data Reach : Server → Type 0 where
  start : Reach empty_server
  later : {s t : Server} → Reach s → ServerStep s t → Reach t

pub data LinkRun (l : Link) : Link → Type 0 where
  here : LinkRun l l
  and_then : {m n : Link} → LinkRun l m → LinkStep m n → LinkRun l n
