-- ===== src/Service/ReadOnly.antt =====
-- Which requests leave the controller as it is.
use gke_quick_prototype.Prelude.{
  ◌≡◌, refl, Bool, true, false, ◌&&◌, ◌||◌, ◌++◌, Option, none, some, List, [], ◌∷◌, inl, inr,
  Bool-cases, length, ltb,
}
use gke_quick_prototype.Prelude.Text.{Text, codes, text_eq, text_eq_iff}
use gke_quick_prototype.Controller.{Controller}
use gke_quick_prototype.Handlers.{handle_status, handle_list_sandboxes, handle_healthz}
use gke_quick_prototype.Service.{
  Endpoint, pool_size_change, provision_request, sandbox_action, sandbox_deletion, claimed_deletion,
  metrics_reset_request, status_page, list_page, sandbox_page, summary_page, health_page,
  prometheus_page, ui_page, root_page, Route, register_routes, main_routes, covers, takes_method,
  longer, best_route, HttpRequest, serve_endpoint, serve_route, is_redirected, serve,
}

abbrev Holds : (Route → Type 0) → Option Route → Type 0
Holds P none = Unit
Holds P (some r) = P r

Holds-longer :
    (P : Route → Type 0) (r : Route) (o : Option Route) → P r → Holds P o → P (longer r o)
Holds-longer P r none p h = p
Holds-longer P r (some q) p h = elim (Bool-cases (ltb (length r.pattern) (length q.pattern))) [
  | inl t ↦ rw t h
  | inr f ↦ rw f p
]

abbrev pub is_reading : Endpoint → Bool
is_reading pool_size_change = false
is_reading provision_request = false
is_reading sandbox_action = false
is_reading sandbox_deletion = false
is_reading claimed_deletion = false
is_reading metrics_reset_request = false
is_reading _ = true

-- The methods whose routes may change the controller.
unfoldable pub is_changing : Text → Bool
is_changing m = text_eq m (codes "PUT") || text_eq m (codes "POST") || text_eq m (codes "DELETE")

unfoldable all_fitting : List Route → Bool
all_fitting [] = true
all_fitting (r ∷ rs) = (is_reading r.endpoint || is_changing r.method) && all_fitting rs

table_fitting : all_fitting (register_routes ++ main_routes) ≡ true
unfolding register_routes main_routes all_fitting is_changing text_eq
table_fitting = refl

both_true : (a b : Bool) → a && b ≡ true → (a ≡ true) × (b ≡ true)
both_true true b e = (refl, e)
both_true false b e = cc

either_true : (a b : Bool) → a || b ≡ true → b ≡ false → a ≡ true
either_true true b e n = refl
either_true false b e n = cc

serve_endpoint-reading :
    (q : HttpRequest) (e : Endpoint) (c : Controller)
    → is_reading e ≡ true
    → (serve_endpoint q e c).1 ≡ c
unfolding serve_endpoint handle_status handle_list_sandboxes handle_healthz
serve_endpoint-reading q status_page c h = refl
serve_endpoint-reading q list_page c h = refl
serve_endpoint-reading q sandbox_page c h = refl
serve_endpoint-reading q summary_page c h = refl
serve_endpoint-reading q health_page c h = refl
serve_endpoint-reading q prometheus_page c h = refl
serve_endpoint-reading q ui_page c h = refl
serve_endpoint-reading q root_page c h = refl
serve_endpoint-reading q _ c h = cc

get_changes_nothing : is_changing (codes "GET") ≡ false
unfolding is_changing text_eq
get_changes_nothing = refl

taken-changing :
    (method : Text) (r : Route)
    → is_changing method ≡ false
    → takes_method method r ≡ true
    → is_changing r.method ≡ false
unfolding takes_method
taken-changing method r n t = elim (Bool-cases (text_eq r.method method)) [
  | inl e ↦ rw ((text_eq_iff r.method method).0 e) n
  | inr f ↦
      let got =
        both_true (text_eq r.method (codes "GET")) (text_eq method (codes "HEAD")) (rw f at t) in
      rw ((text_eq_iff r.method (codes "GET")).0 got.0) get_changes_nothing
]

abbrev IsReading : Route → Type 0
IsReading r = is_reading r.endpoint ≡ true

-- What is chosen for a method that changes nothing only reads.
best_route-Reading :
    (method path : Text) (rs : List Route)
    → is_changing method ≡ false
    → all_fitting rs ≡ true
    → Holds IsReading (best_route method path rs)
unfolding best_route all_fitting
best_route-Reading method path [] n a = tt
best_route-Reading method path (r ∷ rest) n a =
    let (fit, fits) =
      both_true (is_reading r.endpoint || is_changing r.method) (all_fitting rest) a in
    let h = best_route-Reading method path rest n fits in
    elim (Bool-cases (takes_method method r && covers path r)) [
      | inl t ↦ rw t (
          Holds-longer IsReading r (best_route method path rest)
            (either_true _ _ fit (taken-changing method r n (both_true _ _ t).0)) h)
      | inr f ↦ rw f h
    ]

serve_route-reading :
    (q : HttpRequest) (o : Option Route) (c : Controller)
    → Holds IsReading o
    → (serve_route q o c).1 ≡ c
unfolding serve_route
serve_route-reading q none c h = refl
serve_route-reading q (some r) c h = serve_endpoint-reading q r.endpoint c h

-- A request leaves the controller as it is unless its method is PUT, POST or DELETE, whatever its
-- path is: no page, no health check and no metrics scrape changes the store or an instrument, kicks the
-- reconciler, or patches or deletes anything in the cluster.
pub serve-reading :
    (q : HttpRequest) (c : Controller) → is_changing q.method ≡ false → (serve q c).1 ≡ c
unfolding serve
serve-reading q c n = elim (Bool-cases (is_redirected q)) [
  | inl t ↦ rw t refl
  | inr f ↦ rw f (serve_route-reading q _ c (best_route-Reading q.method q.path _ n table_fitting))
]
