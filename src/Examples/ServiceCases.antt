-- ===== src/Examples/ServiceCases.antt =====
-- The controller's start and its service.
use gke_quick_prototype.Prelude.{ℕ, ◌≡◌, refl, false, none, List, [], ◌∷◌, if◌then◌else◌}
use gke_quick_prototype.Prelude.Int.{pos}
use gke_quick_prototype.Prelude.Text.{Text, codes, text_eq, strip_prefix, digits_value}
use gke_quick_prototype.Store.Invariant.{IsWellFormed}
use gke_quick_prototype.Provision.{ok}
use gke_quick_prototype.Startup.{
  Environ, env_or, env_int_or, atoi, as_positive, magnitude, StartEnv, initial_pool_size,
  read_config, start_controller,
}
use gke_quick_prototype.Reconciler.{tick}
use gke_quick_prototype.Service.{
  HttpRequest, register_routes, main_routes, covers, takes_method, any_covers, has_subtree,
  is_redirected, best_route, serve_route, serve_endpoint, serve, Activity, request, wakes,
  run_service,
}
use gke_quick_prototype.Service.Sound.{run_service-IsSound}
use gke_quick_prototype.Service.ReadOnly.{is_changing, serve-reading}
use gke_quick_prototype.Examples.Setup.{
  start, name_a, sandbox_named, provision_env, api, reads, reconcile_inputs,
}

abbrev ask : Text → Text → HttpRequest
ask m p = record {
  method = m;
  path = p;
  now = pos 500;
  provision_env = provision_env;
  api = api;
  reads = reads;
  pool_size = ok (pos 3);
  claimed_names = ok (name_a ∷ []);
  schedule = none;
  claim_to_ready = none;
}

abbrev variables : Environ
variables key = if text_eq key (codes "POOL_SIZE") then codes "12" else []

abbrev start_env : StartEnv
start_env = record { vars = variables; replicas = none }

-- The variable is read where the Deployment is not.
pool_of_twelve : initial_pool_size start_env ≡ pos 12
unfolding initial_pool_size read_config env_int_or text_eq atoi as_positive magnitude digits_value
pool_of_twelve = refl

no_number : env_int_or (λ key. codes "1O") (codes "POOL_SIZE") (pos 5) ≡ pos 5
unfolding env_int_or text_eq atoi as_positive magnitude digits_value
no_number = refl

default_port : env_or variables (codes "PORT") (codes "8080") ≡ codes "8080"
unfolding env_or text_eq
default_port = refl

abbrev code_of : HttpRequest → ℕ
code_of q = (serve q start).0.code

redirect_to_subtree : code_of (ask (codes "DELETE") (codes "/api/sandboxes")) ≡ 301
unfolding serve is_redirected has_subtree best_route covers takes_method register_routes main_routes
    text_eq strip_prefix
redirect_to_subtree = refl

wrong_method : code_of (ask (codes "PUT") (codes "/api/provision")) ≡ 405
unfolding serve serve_route is_redirected any_covers has_subtree best_route covers takes_method
    register_routes main_routes text_eq strip_prefix
wrong_method = refl

nothing_there : code_of (ask (codes "GET") (codes "/nope")) ≡ 404
unfolding serve serve_route serve_endpoint is_redirected has_subtree best_route covers takes_method
    register_routes main_routes text_eq strip_prefix
nothing_there = refl

-- A claim, a sync, and the deletion of all claimed sandboxes.
abbrev history : List Activity
history =
    request (ask (codes "POST") (codes "/api/provision"))
    ∷ wakes reconcile_inputs tick
    ∷ request (ask (codes "DELETE") (codes "/api/claimed"))
    ∷ []

run_service-IsSound_example :
    IsWellFormed
      (run_service history (start_controller (λ r. sandbox_named name_a) start_env)).store
run_service-IsSound_example = run_service-IsSound (λ r. sandbox_named name_a) start_env history

scrape_reads : is_changing (codes "HEAD") ≡ false
unfolding is_changing text_eq
scrape_reads = refl

serve-reading_example : (serve (ask (codes "HEAD") (codes "/metrics")) start).1 ≡ start
serve-reading_example = serve-reading (ask (codes "HEAD") (codes "/metrics")) start scrape_reads
