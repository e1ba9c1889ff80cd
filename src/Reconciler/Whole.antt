-- ===== src/Reconciler/Whole.antt =====
-- A whole sync, on one name.
use gke_quick_prototype.Prelude.{
  ℕ, zero, suc, ◌≡◌, ◌*◌, refl, ap, ◌∙◌, Option-cases, inl, inr, Option, none, some, List, [], ◌∷◌,
  arith, if◌then◌else◌,
}
use gke_quick_prototype.Prelude.Int.{ℤ, ltb_ℤ, pos}
use gke_quick_prototype.Prelude.Text.{Text, codes}
use gke_quick_prototype.Clock.{sub, minute}
use gke_quick_prototype.Store.{Store, Sandbox, get, set_pool_size}
use gke_quick_prototype.Store.Invariant.{IsWellFormed, set_pool_size-IsWellFormed}
use gke_quick_prototype.Store.Views.{view}
use gke_quick_prototype.Kube.{Pod, delete_pod}
use gke_quick_prototype.Controller.{Controller, called}
use gke_quick_prototype.Sync.{adopt_replicas, sync_store, is_live}
use gke_quick_prototype.Sync.Loop.{after_pods, view-sync_store, sync_store-IsWellFormed}
use gke_quick_prototype.Gc.{CompletedEnv, gc, delete_completed, clean_namespace, gc_completed_pods}
use gke_quick_prototype.Gc.Sweep.{surviving, gc_lem, gc-IsWellFormed}
use gke_quick_prototype.Reconciler.{ReconcileEnv, sync_env, update_gauges, sync_listed, sync, drain}

store-delete_completed :
    (env : CompletedEnv) (ns : Text) (pods : List Pod) (c : Controller)
    → (delete_completed env ns pods c).store ≡ c.store
unfolding delete_completed called
store-delete_completed env ns [] c = refl
store-delete_completed env ns (pod ∷ pods) c = ground (
  arith,
  store-delete_completed env ns pods (
      if ltb_ℤ (sub (env.seen_at ns pod) pod.creation) (pos (2 * minute))
      then c
      else called (delete_pod ns pod.name 0) c),
)

store-clean_namespace :
    (env : CompletedEnv) (ns : Text) (c : Controller) → (clean_namespace env ns c).store ≡ c.store
unfolding clean_namespace
store-clean_namespace env ns c = elim (Option-cases (env.completed ns)) [
  | inl e ↦ rw (e, clean_namespace) refl
  | inr (pods, e) ↦ rw (e, clean_namespace) (store-delete_completed env ns pods c)
]

-- Cleaning up completed pods does not touch the store.
pub store-gc_completed_pods :
    (env : CompletedEnv) (ns : Text) (c : Controller) → (gc_completed_pods env ns c).store ≡ c.store
unfolding gc_completed_pods
store-gc_completed_pods env ns c =
    store-clean_namespace env (codes "sandbox-control") (clean_namespace env ns c)
    ∙ store-clean_namespace env ns c

adopt-IsWellFormed :
    (o : Option (Option ℤ)) (s : Store) → IsWellFormed s → IsWellFormed (adopt_replicas o s)
unfolding adopt_replicas
adopt-IsWellFormed (some (some n)) s wf = set_pool_size-IsWellFormed s wf n
adopt-IsWellFormed (some none) s wf = wf
adopt-IsWellFormed none s wf = wf

view-adopt : (o : Option (Option ℤ)) (s : Store) (j : Text) → view (adopt_replicas o s) j ≡ view s j
unfolding adopt_replicas set_pool_size view get
view-adopt (some (some n)) s j = refl
view-adopt (some none) s j = refl
view-adopt none s j = refl

module _ (env : ReconcileEnv) (pods : List Pod) (c : Controller) (wf : IsWellFormed c.store) where
  abbrev adopted : Controller
  adopted = record c { store = adopt_replicas env.replicas c.store }

  abbrev synced : Controller
  synced = sync_store (sync_env env) pods env.synced_at adopted

  synced-IsWellFormed : IsWellFormed synced.store
  synced-IsWellFormed =
      sync_store-IsWellFormed (sync_env env) pods env.synced_at adopted
        (adopt-IsWellFormed env.replicas c.store wf)

  store-sync_listed :
      (sync_listed env pods c).store ≡ (gc env.gc_env (update_gauges env.gauged_at synced)).store
  unfolding sync_listed
  store-sync_listed = store-gc_completed_pods env.completed_env env.gc_env.namespace _

  sync_listed-IsWellFormed : IsWellFormed (sync_listed env pods c).store
  unfolding update_gauges
  sync_listed-IsWellFormed =
      rw store-sync_listed
        (gc-IsWellFormed env.gc_env (update_gauges env.gauged_at synced) synced-IsWellFormed)

  view-sync_listed :
      (j : Text)
      → view (sync_listed env pods c).store j
        ≡ surviving env.gc_env
            (if is_live pods j then after_pods (sync_env env) pods j (view c.store j) else none)
  unfolding update_gauges
  view-sync_listed j =
      ap (λ s. view s j) store-sync_listed
      ∙ gc_lem env.gc_env (update_gauges env.gauged_at synced) j synced-IsWellFormed
      ∙ ap (surviving env.gc_env) (
          view-sync_store (sync_env env) pods env.synced_at adopted j
            (adopt-IsWellFormed env.replicas c.store wf)
          ∙ rw (view-adopt env.replicas c.store j) refl)

abbrev pub listed_view : ReconcileEnv → Controller → Text → Option (List Pod) → Option Sandbox
listed_view env c j none = view c.store j
listed_view env c j (some pods) =
    surviving env.gc_env
      (if is_live pods j then after_pods (sync_env env) pods j (view c.store j) else none)

sync_cases :
    (env : ReconcileEnv) (c : Controller) (o : Option (List Pod))
    → env.pods ≡ o
    → IsWellFormed c.store
    → IsWellFormed (sync env c).store
      × ((j : Text) → view (sync env c).store j ≡ listed_view env c j o)
unfolding sync
sync_cases env c none e wf = rw (e, sync) (wf, λ j. refl)
sync_cases env c (some pods) e wf =
    rw (e, sync) (sync_listed-IsWellFormed env pods c wf, view-sync_listed env pods c wf)

-- A whole sync keeps a well-formed store well formed and acts on each name alone. Where the pods
-- cannot be listed nothing changes. Else a name that no live pod bears leads to nothing, and any
-- other to its entry as the pods changed it, unless the collector finds a reason against it and its
-- pod goes.
pub sync_lem :
    (env : ReconcileEnv) (c : Controller)
    → IsWellFormed c.store
    → IsWellFormed (sync env c).store
      × ((j : Text) → view (sync env c).store j ≡ listed_view env c j env.pods)
sync_lem env c wf = sync_cases env c env.pods refl wf

drain_lem : (n : ℕ) → drain n ≡ 0
unfolding drain
drain_lem zero = refl
drain_lem (suc n) = drain_lem n
