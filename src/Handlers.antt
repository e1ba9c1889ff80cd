-- ===== src/Handlers.antt =====
-- app/controller/handlers.go: the handlers other than `handleProvision`.
pub mod Deletion
pub mod Routes
use gke_quick_prototype.Prelude.{
  ℕ, ◌+◌, ◌==◌, Bool, true, false, Option, none, some, List, [], ◌∷◌, map, ltb, length,
  if◌then◌else◌,
}
use gke_quick_prototype.Prelude.Int.{ℤ, pos, ltb_ℤ}
use gke_quick_prototype.Prelude.Text.{Text, codes}
use gke_quick_prototype.Clock.{Time, sub, truncate_second}
use gke_quick_prototype.Store.{
  Ref, Sandbox, Store, get, remove, list, status, set_pool_size, get_pool_size, reset_observations,
}
use gke_quick_prototype.Kube.{Event, delete_pod, patch_replicas}
use gke_quick_prototype.Controller.{Controller, kick, called, reset_metrics}
use gke_quick_prototype.PodState.{is_text}
use gke_quick_prototype.Http.{
  Response, Body, plain_text, EventInfo, events, problem, sandbox, sandboxes, status_body,
  pool_resized, restarted, deleted, deleted_many, logs, proxied, metrics_reset, healthy,
}
use gke_quick_prototype.UrlPath.{parts_of, last_part, part_before_last, extract_name}
use gke_quick_prototype.Terminal.{TerminalEnv, terminal_answer}
use gke_quick_prototype.Provision.{Result, ok, err}

unfoldable pub fails : ℕ → Text → Text → Response
fails code text e = record { code = code; body = problem text e }

unfoldable pub succeeds : Body → Response
succeeds b = record { code = 200; body = b }

unfoldable pub handle_status : Time → Controller → Response × Controller
handle_status now c = (
  succeeds
      (status_body (status now c.instruments.claim_total c.instruments.scheduled_total c.store)),
  c,
)

unfoldable pub handle_list_sandboxes : Controller → Response × Controller
handle_list_sandboxes c = (succeeds (sandboxes (map c.store.heap (list c.store))), c)

unfoldable pub handle_healthz : Controller → Response × Controller
handle_healthz c = (succeeds healthy, c)

unfoldable pub handle_metrics_reset : Controller → Response × Controller
handle_metrics_reset c = (
  succeeds metrics_reset,
  record c { instruments = reset_metrics c.instruments; store = reset_observations c.store },
)

-- The API server's answers are `some` error where a call fails.
pub record ApiEnv : Type 0 where
  pub namespace : Text
  pub deploy_name : Text
  pub patch_deployment : ℤ → Option Text
  pub delete : Text → Option Text

unfoldable pub pool_size_patched : ℤ → Option Text → Controller → Response × Controller
pool_size_patched size (some e) c = (fails 500 (codes "failed to set replicas: ") e, c)
pool_size_patched size none c = (
  succeeds (pool_resized size (get_pool_size c.store)),
  record c { store = set_pool_size size c.store },
)

-- The request's field `size`, or the error of the decoder.
unfoldable pub handle_set_pool_size : ApiEnv → Result ℤ → Controller → Response × Controller
handle_set_pool_size env (err e) c = (fails 400 (codes "invalid JSON: ") e, c)
handle_set_pool_size env (ok size) c =
    if ltb_ℤ size (pos 0)
    then (fails 400 (codes "pool size must be >= 0") [], c)
    else pool_size_patched size (env.patch_deployment size)
        (called (patch_replicas env.namespace env.deploy_name size) c)

unfoldable pub restart_answered : Text → Option Text → Controller → Response × Controller
restart_answered name (some e) c = (fails 500 (codes "restart failed: ") e, c)
restart_answered name none c = (succeeds (restarted name), record c { store = remove name c.store })

unfoldable pub restart_found : ApiEnv → Text → Option Ref → Controller → Response × Controller
restart_found env name none c = (fails 404 (codes "sandbox not found") [], c)
restart_found env name (some r) c =
    restart_answered name (env.delete name) (called (delete_pod env.namespace name 0) c)

unfoldable pub handle_restart : ApiEnv → Text → Controller → Response × Controller
handle_restart env name c = restart_found env name (get name c.store) c

unfoldable pub handle_sandbox_action : ApiEnv → Text → Controller → Response × Controller
handle_sandbox_action env path c =
    let parts = parts_of path in
    if ltb (length parts) 5
    then (fails 400 (codes "expected /api/sandboxes/{name}/{action}") [], c)
    else if is_text (last_part parts) "restart"
    then handle_restart env (part_before_last parts) c
    else (fails 400 (codes "unknown action: ") (last_part parts), c)

unfoldable pub delete_answered : Text → Option Text → Controller → Response × Controller
delete_answered name (some e) c = (fails 500 (codes "delete failed: ") e, c)
delete_answered name none c = (succeeds deleted, record c { store = remove name c.store })

unfoldable pub delete_named : ApiEnv → Text → Controller → Response × Controller
delete_named env [] c = (fails 400 (codes "missing sandbox name") [], c)
delete_named env (d ∷ t) c =
    delete_answered (d ∷ t) (env.delete (d ∷ t)) (called (delete_pod env.namespace (d ∷ t) 0) c)

unfoldable pub handle_delete_sandbox : ApiEnv → Text → Controller → Response × Controller
handle_delete_sandbox env path c = delete_named env (extract_name path) c

-- One round of the loop of handleDeleteAllClaimed; the number is `deleted`.
unfoldable pub delete_claimed : ApiEnv → Text → Controller × ℕ → Controller × ℕ
delete_claimed env name (c, n) =
    let c' = called (delete_pod env.namespace name 0) c in
    elim (env.delete name) [
      | none ↦ (record c' { store = remove name c'.store }, n + 1)
      | some e ↦ (c', n)
    ]

unfoldable pub delete_all : ApiEnv → List Text → Controller × ℕ → Controller × ℕ
delete_all env [] acc = acc
delete_all env (name ∷ names) acc = delete_all env names (delete_claimed env name acc)

-- The names of the pods that the API server lists as claimed, or its error.
unfoldable pub handle_delete_all_claimed :
    ApiEnv → Result (List Text) → Controller → Response × Controller
handle_delete_all_claimed env (err e) c = (fails 500 [] e, c)
handle_delete_all_claimed env (ok names) c =
    let (c', n) = delete_all env names (c, 0) in (succeeds (deleted_many n), kick c')

-- What the read-only sub-resources get from the cluster.
pub data LogAnswer : Type 0 where
  no_stream no_read : Text → LogAnswer
  read : Text → LogAnswer

pub record ReadEnv : Type 0 where
  pub log_answer : Text → LogAnswer
  pub status_answer : Text → Result Response
  pub event_answer : Text → Result (List Event)
  pub terminal : Text → TerminalEnv

unfoldable pub logs_answered : Text → LogAnswer → Response
logs_answered name (no_stream e) = fails 500 (codes "logs unavailable: ") e
logs_answered name (no_read e) = fails 500 (codes "failed to read logs") []
logs_answered name (read text) = succeeds (logs name text)

abbrev not_found : Response
not_found = record { code = 404; body = problem (codes "sandbox not found") [] }

unfoldable pub handle_logs : ReadEnv → Text → Controller → Response
handle_logs env name c = elim (get name c.store) [
  | none ↦ not_found
  | some r ↦ logs_answered name (env.log_answer name)
]

unfoldable pub status_reached : Result Response → Response
status_reached (err e) = fails 502 (codes "failed to reach sandbox: ") e
status_reached (ok answer) = answer

-- The address of the request is "http://{podIP}:3004/_sandbox/status".
unfoldable pub handle_sandbox_status : ReadEnv → Text → Controller → Response
handle_sandbox_status env name c = elim (get name c.store) [
  | none ↦ not_found
  | some r ↦
      if is_text (c.store.heap r).pod_ip ""
      then fails 503 (codes "pod IP not available") []
      else status_reached (env.status_answer (c.store.heap r).pod_ip)
]

-- One item of the answer; the source formats the age.
unfoldable pub event_info : Event → EventInfo
event_info e = record {
  kind = e.kind;
  reason = e.reason;
  message = e.message;
  age = truncate_second (sub e.seen_at e.last_timestamp);
  count = e.count;
}

unfoldable pub events_answered : Text → Result (List Event) → Response
events_answered name (err e) = fails 500 (codes "events unavailable") []
events_answered name (ok items) = succeeds (events name (map event_info items))

unfoldable pub handle_events : ReadEnv → Text → Controller → Response
handle_events env name c = elim (get name c.store) [
  | none ↦ not_found
  | some r ↦ events_answered name (env.event_answer name)
]

unfoldable pub handle_terminal : ReadEnv → Text → Controller → Response
handle_terminal env name c = elim (get name c.store) [
  | none ↦ record { code = 404; body = plain_text (codes "sandbox not found") }
  | some r ↦ let t = env.terminal name in terminal_answer t t.refusal
]

unfoldable pub sandbox_found : Option Ref → Controller → Response
sandbox_found none c = not_found
sandbox_found (some r) c = succeeds (sandbox (c.store.heap r))

unfoldable pub handle_sandbox_get : ReadEnv → Text → Controller → Response
handle_sandbox_get env path c =
    let parts = parts_of path in
    let final = last_part parts in
    let name = part_before_last parts in
    if ltb (length parts) 4
    then fails 400 (codes "missing sandbox name") []
    else if is_text final "logs"
    then handle_logs env name c
    else if is_text final "events"
    then handle_events env name c
    else if is_text final "terminal"
    then handle_terminal env name c
    else if is_text final "status"
    then handle_sandbox_status env name c
    else sandbox_found (get final c.store) c
