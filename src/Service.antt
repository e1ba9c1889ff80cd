-- ===== src/Service.antt =====
-- The controller's HTTP service as a whole: `RegisterRoutes` (app/controller/handlers.go), the
-- routes that app/controller/main.go adds, and requests and syncs one after the other. Of the
-- multiplexer of net/http is modelled what these routes use, on paths that are clean already: an
-- exact pattern before a subtree, a longer subtree before a shorter one, a redirect where only the
-- slash at the end is missing, 405 where only other methods have a pattern for the path.
pub mod Sound
pub mod ReadOnly
use gke_quick_prototype.Prelude.{
  ℕ, ◌+◌, Bool, true, false, not, ◌&&◌, ◌||◌, Option, none, some, List, [], ◌∷◌, ◌++◌, ◌==◌, ltb,
  length, if◌then◌else◌,
}
use gke_quick_prototype.Prelude.Int.{ℤ}
use gke_quick_prototype.Prelude.Text.{Text, codes, text_eq, strip_prefix}
use gke_quick_prototype.Clock.{Time}
use gke_quick_prototype.Store.{get_pool_size}
use gke_quick_prototype.Controller.{Controller}
use gke_quick_prototype.Histogram.{Histogram, handle_metrics_summary}
use gke_quick_prototype.Http.{Response, problem, summaries, page, metrics_page}
use gke_quick_prototype.PodState.{is_text}
use gke_quick_prototype.Provision.{Result, ProvisionEnv, handle_provision}
use gke_quick_prototype.Handlers.{
  ApiEnv, ReadEnv, succeeds, handle_status, handle_list_sandboxes, handle_sandbox_get,
  handle_set_pool_size, handle_sandbox_action, handle_delete_sandbox, handle_delete_all_claimed,
  handle_metrics_reset, handle_healthz,
}
use gke_quick_prototype.Reconciler.{ReconcileEnv, Wake, run_round}

pub data Endpoint : Type 0 where
  status_page list_page sandbox_page pool_size_change provision_request sandbox_action : Endpoint
  sandbox_deletion claimed_deletion summary_page metrics_reset_request health_page : Endpoint
  prometheus_page ui_page root_page : Endpoint

pub record Route : Type 0 where
  pub method : Text
  pub pattern : Text
  pub endpoint : Endpoint

abbrev route : Text → Text → Endpoint → Route
route m p e = record { method = m; pattern = p; endpoint = e }

-- RegisterRoutes
unfoldable pub register_routes : List Route
register_routes =
    route (codes "GET") (codes "/api/status") status_page
    ∷ route (codes "GET") (codes "/api/sandboxes") list_page
    ∷ route (codes "GET") (codes "/api/sandboxes/") sandbox_page
    ∷ route (codes "PUT") (codes "/api/pool-size") pool_size_change
    ∷ route (codes "POST") (codes "/api/provision") provision_request
    ∷ route (codes "POST") (codes "/api/sandboxes/") sandbox_action
    ∷ route (codes "DELETE") (codes "/api/sandboxes/") sandbox_deletion
    ∷ route (codes "DELETE") (codes "/api/claimed") claimed_deletion
    ∷ route (codes "GET") (codes "/api/metrics/summary") summary_page
    ∷ route (codes "POST") (codes "/api/metrics/reset") metrics_reset_request
    ∷ route (codes "GET") (codes "/healthz") health_page
    ∷ []

-- The routes of main.go, behind those of the handlers.
unfoldable pub main_routes : List Route
main_routes =
    route (codes "GET") (codes "/metrics") prometheus_page
    ∷ route (codes "GET") (codes "/ui") ui_page
    ∷ route (codes "GET") (codes "/") root_page
    ∷ []

abbrev pub ends_with_slash : Text → Bool
ends_with_slash [] = false
ends_with_slash (c ∷ []) = c == b'/'
ends_with_slash (c ∷ d ∷ s) = ends_with_slash (d ∷ s)

abbrev is_prefix : Option Text → Bool
is_prefix none = false
is_prefix (some rest) = true

-- A pattern that ends with a slash stands for its subtree.
unfoldable pub covers : Text → Route → Bool
covers path r =
    if ends_with_slash r.pattern
    then is_prefix (strip_prefix r.pattern path)
    else text_eq r.pattern path

-- A pattern for GET takes HEAD too.
unfoldable pub takes_method : Text → Route → Bool
takes_method method r = text_eq r.method method || (is_text r.method "GET" && is_text method "HEAD")

abbrev longer : Route → Option Route → Route
longer r none = r
longer r (some q) = if ltb (length r.pattern) (length q.pattern) then q else r

-- The most specific of the patterns that match.
unfoldable pub best_route : Text → Text → List Route → Option Route
best_route method path [] = none
best_route method path (r ∷ rest) =
    let best = best_route method path rest in
    if takes_method method r && covers path r then some (longer r best) else best

unfoldable pub any_covers : Text → List Route → Bool
any_covers path [] = false
any_covers path (r ∷ rest) = covers path r || any_covers path rest

-- A request, with what its handler gets from outside.
pub record HttpRequest : Type 0 where
  pub method : Text
  pub path : Text
  pub now : Time
  pub provision_env : ProvisionEnv
  pub api : ApiEnv
  pub reads : ReadEnv
  pub pool_size : Result ℤ
  pub claimed_names : Result (List Text)
  pub schedule : Option Histogram
  pub claim_to_ready : Option Histogram

-- http.NotFound, http.Redirect and the multiplexer's own answer, all without a JSON body.
abbrev plain : ℕ → Response
plain code = record { code = code; body = problem [] [] }

unfoldable pub serve_endpoint : HttpRequest → Endpoint → Controller → Response × Controller
serve_endpoint q status_page c = handle_status q.now c
serve_endpoint q list_page c = handle_list_sandboxes c
serve_endpoint q sandbox_page c = (handle_sandbox_get q.reads q.path c, c)
serve_endpoint q pool_size_change c = handle_set_pool_size q.api q.pool_size c
serve_endpoint q provision_request c = handle_provision q.provision_env c
serve_endpoint q sandbox_action c = handle_sandbox_action q.api q.path c
serve_endpoint q sandbox_deletion c = handle_delete_sandbox q.api q.path c
serve_endpoint q claimed_deletion c = handle_delete_all_claimed q.api q.claimed_names c
serve_endpoint q summary_page c =
    let (a, b) = handle_metrics_summary q.schedule q.claim_to_ready in (succeeds (summaries a b), c)
serve_endpoint q metrics_reset_request c = handle_metrics_reset c
serve_endpoint q health_page c = handle_healthz c
serve_endpoint q prometheus_page c = (succeeds metrics_page, c)
serve_endpoint q ui_page c = (succeeds (page (get_pool_size c.store)), c)
serve_endpoint q root_page c = (if is_text q.path "/" then plain 302 else plain 404, c)

unfoldable pub serve_route : HttpRequest → Option Route → Controller → Response × Controller
serve_route q (some r) c = serve_endpoint q r.endpoint c
serve_route q none c =
    (if any_covers q.path (register_routes ++ main_routes) then plain 405 else plain 404, c)

abbrev is_exact : Text → Option Route → Bool
is_exact path none = false
is_exact path (some r) = text_eq r.pattern path

-- Some pattern is the path with a slash behind it.
unfoldable pub has_subtree : Text → Text → List Route → Bool
has_subtree method path [] = false
has_subtree method path (r ∷ rest) =
    (takes_method method r && text_eq r.pattern (path ++ b'/' ∷ [])) || has_subtree method path rest

abbrev pub chosen : HttpRequest → Option Route
chosen q = best_route q.method q.path (register_routes ++ main_routes)

-- The path names a subtree without its slash, and nothing else.
unfoldable pub is_redirected : HttpRequest → Bool
is_redirected q =
    not (is_exact q.path (chosen q)) && has_subtree q.method q.path (register_routes ++ main_routes)

unfoldable pub serve : HttpRequest → Controller → Response × Controller
serve q c = if is_redirected q then (plain 301, c) else serve_route q (chosen q) c

-- What happens to the controller: a request, or a round of the reconciler's loop.
pub data Activity : Type 0 where
  request : HttpRequest → Activity
  wakes : ReconcileEnv → Wake → Activity

abbrev pub after_round : Option Controller → Controller → Controller
after_round none c = c
after_round (some c') c = c'

unfoldable pub act : Activity → Controller → Controller
act (request q) c = (serve q c).1
act (wakes env w) c = after_round (run_round env w c) c

unfoldable pub run_service : List Activity → Controller → Controller
run_service [] c = c
run_service (a ∷ rest) c = run_service rest (act a c)
