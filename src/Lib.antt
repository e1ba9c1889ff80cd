-- ===== src/Lib.antt =====
-- The sandbox controller, a warm pool of sandbox pods on Kubernetes (app/controller), and what runs
-- in a sandbox (app/sandbox), with the WebSocket server that the sandboxes talk to (app/ws-server).
--
-- The program. A Deployment keeps a pool of idle pods. The controller holds the state of every pod
-- in a store; its HTTP handlers claim, restart and delete sandboxes, and its reconciler brings the
-- store in line with the cluster once a second, or at once when a handler kicks it, and deletes
-- pods whose time is over. Handlers and reconciler run concurrently and share the store, the
-- Prometheus instruments and the kick channel.
--
-- The files.
--   Prelude      shared names, tests, lists, signed integers, texts as bytes, maps with text keys
--   Clock        package time: instants and durations in nanoseconds
--   Store        app/controller/store.go. Go's map of pointers is a map to cells of a heap, so that
--                a pointer held by a handler and an entry replaced meanwhile are told apart.
--                Store/Invariant, Views (the abstract map), Claim, Counts, Reset and Order
--                prove; Store/Refines is the specification that the methods refine.
--   Kube         the fields of pods that are read, and the calls that change the cluster
--   Controller   the shared state: store, instruments (app/controller/metrics.go), kicks, calls made
--   PodState     app/controller/reconciler.go: state, readiness and image tag of one pod
--   Sync         app/controller/reconciler.go: fetchMetrics, and sync up to RecordSyncSuccess;
--                Sync/Loop, Reflects and Carries prove for any list of pods, Sync/Unique, Counted
--                and Again for pods of different names
--   Gc           app/controller/reconciler.go: gc and gcCompletedPods; Gc/Rules, Sweep and Calls prove
--   Reconciler   app/controller/reconciler.go: sync as a whole, updateGauges, a round of Run
--   Http         app/controller/handlers.go: the answers
--   UrlPath      app/controller/handlers.go: extractName and the parts of a path
--   Lifetime     package time: ParseDuration, and Parse with the layout of a date
--   Rfc3339      package time: the layout RFC 3339, in which handleProvision writes the annotation
--                that sync reads; Rfc3339/Civil and RoundTrip prove
--   Provision    app/controller/handlers.go: handleProvision and parseExpiry, in the stages between
--                which other goroutines may run; Provision/Race puts a sync between them, and
--                Provision/Restart a new controller behind them
--   Lifecycle    a claim and the syncs behind it, those of a restarted controller too: handlers.go
--                and reconciler.go together
--   Handlers     app/controller/handlers.go: the other handlers
--   Concurrency  the goroutines as steps on the shared store, in any interleaving;
--                Concurrency/Exclusive proves what holds in every state they reach
--   Histogram    app/controller/metrics.go: the quantiles of the metrics summary
--   Terminal     app/controller/terminal.go: handleTerminal, and wsStream with Read and Write
--   Workload     app/sandbox/main.go: isDetached, the tiers and the load of phaseLoadLoop with the
--                windows of a burst (Workload/Burst), and the loop of phaseDiskWrite
--   Service      RegisterRoutes of app/controller/handlers.go and the routes of app/controller/main.go,
--                and the controller under requests and syncs; Service/Sound and ReadOnly prove
--   Startup      app/controller/main.go: the configuration, and the controller as it starts
--   Scenario     app/sandbox/main.go: the reported state and its page, waitForDetach, the downloads,
--                and the phases as main runs them
--   IdToken      app/sandbox/ws.go: fetchIDToken, and the headers of the dialer
--   WsSession    app/sandbox/ws.go: the audience, a connection, the loop that reconnects
--   WsServer     app/ws-server/main.go: what handleWS answers and counts, and the health page
--   Heartbeat    the sandboxes' connections and the ws-server as one system of steps
--   Monitoring   app/sandbox/metrics.go: the client of Cloud Monitoring
--   Probe        app/sandbox/probe.go: the loop of the network probe
--   Examples     tests, and each theorem at a concrete input
--
-- Correspondence. A method of the store is a function on the Store record, one atomic step because
-- it holds the mutex from its first line to its last. A handler or a sync is a function from the
-- Controller record to it. What comes from outside is an argument: the API server's answers, the
-- request, and the readings of the clock. The calls that change the cluster are kept in order in
-- the field `calls`. A range over a Go map is a walk over the list of its entries; Go leaves the
-- order open and the theorems hold for every list.
--
-- Bounds. The loops of the controller are over lists and structural. The loop that fills the disk
-- runs on fuel, two rounds more than the target has whole chunks, which Workload/Bounds proves
-- enough; the parser of durations runs on the length of its text, more than which changes nothing
-- (Lifetime/Fuel). TrimSpace runs on the length of its text, of which each round takes a byte at
-- least. Sums of int64 wrap at 2^64. The difference of two instants saturates as in Go. Durations
-- that the program turns into float64 seconds stay integers of nanoseconds, and the quantiles of the
-- histograms, which it computes in float64, are exact here, as are the fractions of a lifetime and
-- the duty cycles, in percent. Times that are written as RFC 3339 are those of the years 1 to 9999.
--
-- The events of a loop on a channel or a ticker are a list, in the order in which they are
-- received, and a loop over them is structural: a list that runs out is a loop that goes on. The
-- counter of the ws-server wraps at 2^64 as its int64 does. Go's int has 64 bits. The clock of a
-- burst is the monotonic one of the process: each round adds what it takes and what it sleeps. How
-- many bytes io.Copy copies is an argument, as the size of a body is not bounded by the program.
--
-- Not modelled. Log lines, the JSON text of the answers (their fields are), the exec stream of a
-- terminal (its calls of wsStream are an argument), Prometheus, the handshake of a WebSocket, and
-- the product that keeps a core busy inside a window. The multiplexer of net/http is modelled on
-- the routes of the program and on clean paths; what it does to other paths is not.
pub mod Prelude
pub mod Clock
pub mod Store
pub mod Kube
pub mod Controller
pub mod PodState
pub mod Sync
pub mod Gc
pub mod Reconciler
pub mod Http
pub mod Lifetime
pub mod Rfc3339
pub mod Provision
pub mod UrlPath
pub mod Handlers
pub mod Concurrency
pub mod Histogram
pub mod Terminal
pub mod Workload
pub mod Lifecycle
pub mod Scenario
pub mod IdToken
pub mod WsSession
pub mod WsServer
pub mod Heartbeat
pub mod Monitoring
pub mod Probe
pub mod Startup
pub mod Service
pub mod Examples
