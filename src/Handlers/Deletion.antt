-- ===== src/Handlers/Deletion.antt =====
-- Deleting, restarting and killing: a sandbox leaves the store exactly if its pod goes.
use gke_quick_prototype.Prelude.{
  ℕ, ◌+◌, ◌≡◌, refl, sym, ap, ◌∙◌, map, append-nil, append_assoc, Bool, true, false, ◌&&◌, ◌||◌,
  Option, none, some, List, [], ◌∷◌, ◌++◌, arith, if◌then◌else◌,
}
use gke_quick_prototype.Prelude.Text.{Text, text_eq}
use gke_quick_prototype.Store.Views.{view, view-remove}
use gke_quick_prototype.Kube.{Call, delete_pod}
use gke_quick_prototype.Controller.{Controller, called, kick}
use gke_quick_prototype.Http.{deleted_many}
use gke_quick_prototype.UrlPath.{slash}
use gke_quick_prototype.UrlPath.Names.{prefix, extract_name_lem}
use gke_quick_prototype.Prelude.Text.{Lacks}
use gke_quick_prototype.Provision.{ok}
use gke_quick_prototype.Provision.Outcomes.{store-kick}
use gke_quick_prototype.Handlers.{
  ApiEnv, fails, succeeds, delete_answered, delete_named, handle_delete_sandbox, delete_claimed,
  delete_all, handle_delete_all_claimed,
}

abbrev went : Option Text → Bool
went none = true
went (some e) = false

-- The API server carries out the deletion.
abbrev pub goes : ApiEnv → Text → Bool
goes env name = went (env.delete name)

view-delete_answered :
    (name : Text) (o : Option Text) (c : Controller)
    → ((j : Text)
        → view (delete_answered name o c).1.store j
          ≡ (if went o && text_eq name j then none else view c.store j))
      × ((delete_answered name o c).0.code ≡ (if went o then 200 else 500))
unfolding delete_answered succeeds fails
view-delete_answered name none c = ((λ j. view-remove c.store name j), refl)
view-delete_answered name (some x) c = ((λ j. refl), refl)

-- DELETE /api/sandboxes/{name}, for a name that is not empty and has no slash: the name leaves the
-- store exactly if the API server deletes the pod, the answer is 200 or 500 accordingly, and no
-- other name is touched.
pub handle_delete_sandbox_lem :
    (env : ApiEnv) (d : ℕ) (t : Text) (c : Controller)
    → Lacks slash (d ∷ t)
    → ((j : Text)
        → view (handle_delete_sandbox env (prefix ++ d ∷ t) c).1.store j
          ≡ (if goes env (d ∷ t) && text_eq (d ∷ t) j then none else view c.store j))
      × ((handle_delete_sandbox env (prefix ++ d ∷ t) c).0.code
          ≡ (if goes env (d ∷ t) then 200 else 500))
unfolding handle_delete_sandbox delete_named called
handle_delete_sandbox_lem env d t c a = rw (extract_name_lem d t a).0 (
    view-delete_answered (d ∷ t) (env.delete (d ∷ t))
      (called (delete_pod env.namespace (d ∷ t) 0) c))

-- A listed name whose pod goes.
unfoldable pub killed : ApiEnv → List Text → Text → Bool
killed env [] j = false
killed env (name ∷ names) j = (goes env name && text_eq name j) || killed env names j

unfoldable pub kill_count : ApiEnv → List Text → ℕ
kill_count env [] = 0
kill_count env (name ∷ names) = (if goes env name then 1 else 0) + kill_count env names

claimed-went :
    (env : ApiEnv) (name : Text) (o : Option Text) (acc : Controller × ℕ)
    → env.delete name ≡ o
    → ((j : Text)
        → view (delete_claimed env name acc).0.store j
          ≡ (if went o && text_eq name j then none else view acc.0.store j))
      × ((delete_claimed env name acc).1 ≡ acc.1 + (if went o then 1 else 0))
      × ((delete_claimed env name acc).0.calls
          ≡ acc.0.calls ++ delete_pod env.namespace name 0 ∷ [])
unfolding delete_claimed called
claimed-went env name none (c, n) e =
    rw (e, delete_claimed) ((λ j. view-remove c.store name j), refl, refl)
claimed-went env name (some x) (c, n) e = rw (e, delete_claimed) ((λ j. refl), omega arith, refl)

abbrev pub deletions : ApiEnv → List Text → List Call
deletions env = map (λ name. delete_pod env.namespace name 0)

delete_all_lem :
    (env : ApiEnv) (names : List Text) (acc : Controller × ℕ)
    → ((j : Text)
        → view (delete_all env names acc).0.store j
          ≡ (if killed env names j then none else view acc.0.store j))
      × ((delete_all env names acc).1 ≡ acc.1 + kill_count env names)
      × ((delete_all env names acc).0.calls ≡ acc.0.calls ++ deletions env names)
unfolding delete_all killed kill_count
delete_all_lem env [] acc = ((λ j. refl), omega arith, sym (append-nil _))
delete_all_lem env (name ∷ names) acc =
    let one = claimed-went env name (env.delete name) acc refl in
    let rest = delete_all_lem env names (delete_claimed env name acc) in
    (
      (λ j. rest.0 j ∙ rw (one.0 j) (ground arith)),
      omega (arith, rest.1, one.1),
      rest.2
          ∙ rw one.2 (
              append_assoc acc.0.calls (delete_pod env.namespace name 0 ∷ [])
                (deletions env names)),
    )

calls-kick : (c : Controller) → (kick c).calls ≡ c.calls
unfolding kick
calls-kick c = ground arith

-- DELETE /api/claimed, once the claimed pods are listed: each listed pod is deleted with one call;
-- the names whose pods go leave the store, no other name is touched, and the answer is how many
-- went.
pub handle_delete_all_claimed_lem :
    (env : ApiEnv) (names : List Text) (c : Controller)
    → ((j : Text)
        → view (handle_delete_all_claimed env (ok names) c).1.store j
          ≡ (if killed env names j then none else view c.store j))
      × ((handle_delete_all_claimed env (ok names) c).0
          ≡ succeeds (deleted_many (kill_count env names)))
      × ((handle_delete_all_claimed env (ok names) c).1.calls ≡ c.calls ++ deletions env names)
unfolding handle_delete_all_claimed
handle_delete_all_claimed_lem env names c =
    let (gone, sum, asked) = delete_all_lem env names (c, 0) in
    let n : (delete_all env names (c, 0)).1 ≡ kill_count env names = omega (arith, sum) in
    (
      (λ j. rw (store-kick (delete_all env names (c, 0)).0) (gone j)),
      ap (λ k. succeeds (deleted_many k)) n,
      calls-kick _ ∙ asked,
    )
