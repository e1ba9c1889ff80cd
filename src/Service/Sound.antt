-- ===== src/Service/Sound.antt =====
-- The store stays well formed under all requests and syncs.
use gke_quick_prototype.Prelude.{
  ℕ, ◌≡◌, refl, Option, none, some, List, [], ◌∷◌, inl, inr, Bool-cases, ltb, length,
}
use gke_quick_prototype.Prelude.Int.{ℤ, pos, ltb_ℤ}
use gke_quick_prototype.Prelude.Text.{Text}
use gke_quick_prototype.Store.{Ref, Sandbox, new_store}
use gke_quick_prototype.Store.Invariant.{
  IsWellFormed, remove-IsWellFormed, set_pool_size-IsWellFormed, reset_observations-IsWellFormed,
}
use gke_quick_prototype.Controller.{Controller, called}
use gke_quick_prototype.PodState.{is_text}
use gke_quick_prototype.UrlPath.{parts_of, last_part, part_before_last}
use gke_quick_prototype.Provision.{Result, ok, err, handle_provision}
use gke_quick_prototype.Provision.Sound.{IsSound, kick-IsSound, handle_provision-IsSound}
use gke_quick_prototype.Handlers.{
  ApiEnv, handle_status, handle_list_sandboxes, handle_healthz, handle_metrics_reset,
  pool_size_patched, handle_set_pool_size, restart_answered, restart_found, handle_restart,
  handle_sandbox_action, delete_answered, delete_named, handle_delete_sandbox, delete_claimed,
  delete_all, handle_delete_all_claimed,
}
use gke_quick_prototype.Reconciler.{tick, kicked, done, drain, run_round}
use gke_quick_prototype.Reconciler.Whole.{sync_lem}
use gke_quick_prototype.Startup.{StartEnv, start_controller}
use gke_quick_prototype.Service.{
  Endpoint, status_page, list_page, sandbox_page, pool_size_change, provision_request,
  sandbox_action, sandbox_deletion, claimed_deletion, summary_page, metrics_reset_request,
  health_page, prometheus_page, ui_page, root_page, Route, HttpRequest, serve_endpoint, serve_route,
  is_redirected, serve, Activity, request, wakes, act, run_service,
}

module _ (env : ApiEnv) where
  pool_size_patched-IsSound :
      (size : ℤ) (o : Option Text) (c : Controller)
      → IsSound c
      → IsSound (pool_size_patched size o c).1
  unfolding pool_size_patched
  pool_size_patched-IsSound size none c wf = set_pool_size-IsWellFormed c.store wf size
  pool_size_patched-IsSound size (some e) c wf = wf

  handle_set_pool_size-IsSound :
      (size : Result ℤ) (c : Controller) → IsSound c → IsSound (handle_set_pool_size env size c).1
  unfolding handle_set_pool_size
  handle_set_pool_size-IsSound (err e) c wf = wf
  handle_set_pool_size-IsSound (ok size) c wf = elim (Bool-cases (ltb_ℤ size (pos 0))) [
    | inl t ↦ rw t wf
    | inr f ↦ rw f (pool_size_patched-IsSound size _ _ (unfold called in wf))
  ]

  delete_answered-IsSound :
      (name : Text) (o : Option Text) (c : Controller)
      → IsSound c
      → IsSound (delete_answered name o c).1
  unfolding delete_answered
  delete_answered-IsSound name none c wf = remove-IsWellFormed c.store wf name
  delete_answered-IsSound name (some e) c wf = wf

  delete_named-IsSound :
      (name : Text) (c : Controller) → IsSound c → IsSound (delete_named env name c).1
  unfolding delete_named called
  delete_named-IsSound [] c wf = wf
  delete_named-IsSound (d ∷ t) c wf = delete_answered-IsSound (d ∷ t) _ _ wf

  restart_answered-IsSound :
      (name : Text) (o : Option Text) (c : Controller)
      → IsSound c
      → IsSound (restart_answered name o c).1
  unfolding restart_answered
  restart_answered-IsSound name none c wf = remove-IsWellFormed c.store wf name
  restart_answered-IsSound name (some e) c wf = wf

  restart_found-IsSound :
      (name : Text) (o : Option Ref) (c : Controller)
      → IsSound c
      → IsSound (restart_found env name o c).1
  unfolding restart_found called
  restart_found-IsSound name none c wf = wf
  restart_found-IsSound name (some r) c wf = restart_answered-IsSound name _ _ wf

  handle_sandbox_action-IsSound :
      (path : Text) (c : Controller) → IsSound c → IsSound (handle_sandbox_action env path c).1
  unfolding handle_sandbox_action handle_restart
  handle_sandbox_action-IsSound path c wf = elim (Bool-cases (ltb (length (parts_of path)) 5)) [
    | inl t ↦ rw t wf
    | inr f ↦ rw f (elim (Bool-cases (is_text (last_part (parts_of path)) "restart")) [
      | inl t ↦ rw t (restart_found-IsSound (part_before_last (parts_of path)) _ c wf)
      | inr f ↦ rw f wf
    ])
  ]

  delete_claimed-IsSound :
      (name : Text) (o : Option Text) (acc : Controller × ℕ)
      → env.delete name ≡ o
      → IsSound acc.0
      → IsSound (delete_claimed env name acc).0
  unfolding delete_claimed called
  delete_claimed-IsSound name none (c, n) e wf =
      rw (e, delete_claimed) (remove-IsWellFormed c.store wf name)
  delete_claimed-IsSound name (some x) (c, n) e wf = rw (e, delete_claimed) wf

  delete_all-IsSound :
      (names : List Text) (acc : Controller × ℕ)
      → IsSound acc.0
      → IsSound (delete_all env names acc).0
  unfolding delete_all
  delete_all-IsSound [] acc wf = wf
  delete_all-IsSound (name ∷ names) acc wf =
      delete_all-IsSound names _ (delete_claimed-IsSound name _ acc refl wf)

  handle_delete_all_claimed-IsSound :
      (names : Result (List Text)) (c : Controller)
      → IsSound c
      → IsSound (handle_delete_all_claimed env names c).1
  unfolding handle_delete_all_claimed
  handle_delete_all_claimed-IsSound (err e) c wf = wf
  handle_delete_all_claimed-IsSound (ok names) c wf =
      kick-IsSound _ (delete_all-IsSound names (c, 0) wf)

serve_endpoint-IsSound :
    (q : HttpRequest) (e : Endpoint) (c : Controller) → IsSound c → IsSound (serve_endpoint q e c).1
unfolding serve_endpoint handle_status handle_list_sandboxes handle_healthz handle_metrics_reset
    handle_provision
serve_endpoint-IsSound q pool_size_change c wf = handle_set_pool_size-IsSound q.api q.pool_size c wf
serve_endpoint-IsSound q provision_request c wf = handle_provision-IsSound q.provision_env c wf
serve_endpoint-IsSound q sandbox_action c wf = handle_sandbox_action-IsSound q.api q.path c wf
serve_endpoint-IsSound q sandbox_deletion c wf =
    unfold handle_delete_sandbox in delete_named-IsSound q.api _ c wf
serve_endpoint-IsSound q claimed_deletion c wf =
    handle_delete_all_claimed-IsSound q.api q.claimed_names c wf
serve_endpoint-IsSound q metrics_reset_request c wf = reset_observations-IsWellFormed c.store wf
serve_endpoint-IsSound q status_page c wf = wf
serve_endpoint-IsSound q list_page c wf = wf
serve_endpoint-IsSound q sandbox_page c wf = wf
serve_endpoint-IsSound q summary_page c wf = wf
serve_endpoint-IsSound q health_page c wf = wf
serve_endpoint-IsSound q prometheus_page c wf = wf
serve_endpoint-IsSound q ui_page c wf = wf
serve_endpoint-IsSound q root_page c wf = wf

serve_route-IsSound :
    (q : HttpRequest) (o : Option Route) (c : Controller)
    → IsSound c
    → IsSound (serve_route q o c).1
unfolding serve_route
serve_route-IsSound q none c wf = wf
serve_route-IsSound q (some r) c wf = serve_endpoint-IsSound q r.endpoint c wf

serve-IsSound : (q : HttpRequest) (c : Controller) → IsSound c → IsSound (serve q c).1
unfolding serve
serve-IsSound q c wf = elim (Bool-cases (is_redirected q)) [
  | inl t ↦ rw t wf
  | inr f ↦ rw f (serve_route-IsSound q _ c wf)
]

act-IsSound : (a : Activity) (c : Controller) → IsSound c → IsSound (act a c)
unfolding act run_round
act-IsSound (request q) c wf = serve-IsSound q c wf
act-IsSound (wakes env done) c wf = wf
act-IsSound (wakes env tick) c wf = (sync_lem env c wf).0
act-IsSound (wakes env kicked) c wf = (sync_lem env (record c { kicks = drain c.kicks }) wf).0

run_all-IsSound :
    (steps : List Activity) (c : Controller) → IsSound c → IsSound (run_service steps c)
unfolding run_service
run_all-IsSound [] c wf = wf
run_all-IsSound (a ∷ rest) c wf = run_all-IsSound rest (act a c) (act-IsSound a c wf)

-- The controller keeps its store well formed from its start on, whatever requests it gets, however
-- its reconciler wakes up between them, and whatever the API server answers to either: no name
-- stands twice in the map, and every entry's pointer leads to an allocated sandbox of that name.
pub run_service-IsSound :
    (heap : Ref → Sandbox) (env : StartEnv) (steps : List Activity)
    → IsWellFormed (run_service steps (start_controller heap env)).store
unfolding start_controller new_store
run_service-IsSound heap env steps =
    run_all-IsSound steps (start_controller heap env) (record { distinct = tt; filed = tt })
