-- ===== src/Handlers/Routes.antt =====
-- Paths below /api/sandboxes/{name}, the pool size, and the kick channel.
use gke_quick_prototype.Prelude.{
  ℕ, ◌≡◌, refl, sym, ap, ◌∙◌, true, false, Option, none, some, List, [], ◌∷◌, ◌++◌, ◌==◌,
  append-nil, arith, if◌then◌else◌,
}
use gke_quick_prototype.Prelude.Int.{ℤ, pos, negsuc, ltb_ℤ}
use gke_quick_prototype.Prelude.Text.{Text, codes, Lacks, text_eq}
use gke_quick_prototype.Store.{set_pool_size}
use gke_quick_prototype.Kube.{Call, patch_replicas}
use gke_quick_prototype.Controller.{Controller, called}
use gke_quick_prototype.Http.{problem}
use gke_quick_prototype.UrlPath.{slash, trim_slash, parts_of}
use gke_quick_prototype.UrlPath.Names.{
  prefix, name_parts, parts-prefix, split-append, split_whole, trim-append, trim-whole,
}
use gke_quick_prototype.Provision.{ok}
use gke_quick_prototype.Handlers.{
  ApiEnv, ReadEnv, fails, succeeds, pool_size_patched, handle_set_pool_size, handle_restart,
  handle_sandbox_action, handle_sandbox_get, handle_logs, handle_events, handle_terminal,
  handle_sandbox_status,
}

-- The parts of "/api/sandboxes/{name}/{tail}".
parts-two :
    (d : ℕ) (t : Text) (e : ℕ) (u : Text)
    → Lacks slash (d ∷ t)
    → Lacks slash (e ∷ u)
    → parts_of (prefix ++ d ∷ t ++ slash ∷ e ∷ u)
      ≡ [] ∷ codes "api" ∷ codes "sandboxes" ∷ (d ∷ t) ∷ (e ∷ u) ∷ []
unfolding trim_slash
parts-two d t e u a b =
    parts-prefix d (t ++ slash ∷ e ∷ u)
    ∙ ap name_parts
        (trim-append (d ∷ t) slash (e ∷ u) ∙ ap (λ x. (d ∷ t) ++ slash ∷ x) (trim-whole (e ∷ u) b))
    ∙ ap (λ x. [] ∷ codes "api" ∷ codes "sandboxes" ∷ x)
        (split-append (d ∷ t) (e ∷ u) a ∙ ap (λ x. (d ∷ t) ∷ x) (split_whole (e ∷ u) b))

-- GET /api/sandboxes/{name}/{sub}, for a name that is not empty and has no slash, reaches the
-- handler of the sub-resource (logs, events, terminal or status), with that name.
pub handle_sandbox_get_sub :
    (env : ReadEnv) (d : ℕ) (t : Text) (c : Controller)
    → Lacks slash (d ∷ t)
    → (handle_sandbox_get env (prefix ++ d ∷ t ++ slash ∷ codes "logs") c
        ≡ handle_logs env (d ∷ t) c)
      × (handle_sandbox_get env (prefix ++ d ∷ t ++ slash ∷ codes "events") c
          ≡ handle_events env (d ∷ t) c)
      × (handle_sandbox_get env (prefix ++ d ∷ t ++ slash ∷ codes "terminal") c
          ≡ handle_terminal env (d ∷ t) c)
      × (handle_sandbox_get env (prefix ++ d ∷ t ++ slash ∷ codes "status") c
          ≡ handle_sandbox_status env (d ∷ t) c)
unfolding handle_sandbox_get text_eq
handle_sandbox_get_sub env d t c a = (
  rw (parts-two d t b'l' (codes "ogs") a (omega arith)) refl,
  rw (parts-two d t b'e' (codes "vents") a (omega arith)) refl,
  rw (parts-two d t b't' (codes "erminal") a (omega arith)) refl,
  rw (parts-two d t b's' (codes "tatus") a (omega arith)) refl,
)

-- POST /api/sandboxes/{name}/{action}, for a name and an action that are not empty and have no
-- slash: `restart` restarts that sandbox; any other action is refused with 400 and changes nothing.
pub handle_sandbox_action_lem :
    (env : ApiEnv) (d : ℕ) (t : Text) (e : ℕ) (u : Text) (c : Controller)
    → Lacks slash (d ∷ t)
    → Lacks slash (e ∷ u)
    → handle_sandbox_action env (prefix ++ d ∷ t ++ slash ∷ e ∷ u) c ≡ (
        if text_eq (e ∷ u) (codes "restart")
        then handle_restart env (d ∷ t) c
        else (record { code = 400; body = problem (codes "unknown action: ") (e ∷ u) }, c))
unfolding handle_sandbox_action fails
handle_sandbox_action_lem env d t e u c a b = rw (parts-two d t e u a b) refl

-- The code of the answer: a negative size is refused, and the API server may refuse others.
abbrev pub pool_code : ApiEnv → ℤ → ℕ
pool_code env (negsuc n) = 400
pool_code env (pos n) = elim (env.patch_deployment (pos n)) [ none ↦ 200 | some e ↦ 500 ]

abbrev pub pool_calls : ApiEnv → ℤ → List Call
pool_calls env (negsuc n) = []
pool_calls env (pos n) = patch_replicas env.namespace env.deploy_name (pos n) ∷ []

nonnegative : (n : ℕ) → ltb_ℤ (pos n) (pos 0) ≡ false
nonnegative n = ground arith

negative : (n : ℕ) → ltb_ℤ (negsuc n) (pos 0) ≡ true
negative n = ground arith

patched :
    (size : ℤ) (o : Option Text) (c : Controller)
    → ((pool_size_patched size o c).0.code ≡ (elim o [ none ↦ 200 | some e ↦ 500 ]))
      × ((pool_size_patched size o c).1.store ≡ (
          if (pool_size_patched size o c).0.code == 200
          then set_pool_size size c.store
          else c.store))
      × ((pool_size_patched size o c).1.calls ≡ c.calls)
unfolding pool_size_patched fails succeeds
patched size none c = (refl, refl, refl)
patched size (some e) c = (refl, refl, refl)

-- PUT /api/pool-size with a body that decodes: a negative size is refused with 400 before any call.
-- Any other size is sent to the Deployment, once: the answer is 200 if the API server accepts it
-- and 500 if not. The store's pool size follows exactly if the answer is 200, and nothing else of
-- the store changes.
pub handle_set_pool_size_lem :
    (env : ApiEnv) (size : ℤ) (c : Controller)
    → let after = handle_set_pool_size env (ok size) c in
      (after.0.code ≡ pool_code env size)
      × (after.1.store
          ≡ (if pool_code env size == 200 then set_pool_size size c.store else c.store))
      × (after.1.calls ≡ c.calls ++ pool_calls env size)
unfolding handle_set_pool_size fails called
handle_set_pool_size_lem env (negsuc n) c = rw (negative n) (refl, refl, sym (append-nil c.calls))
handle_set_pool_size_lem env (pos n) c =
    let (code, stored, asked) =
      patched (pos n) (env.patch_deployment (pos n))
        (called (patch_replicas env.namespace env.deploy_name (pos n)) c) in
    rw (nonnegative n) (code, rw code at stored, asked)
