-- ===== src/Examples/SyncCases.antt =====
-- The reconciler.
use gke_quick_prototype.Prelude.{
  ℕ, ◌≡◌, ◌↔◌, refl, true, none, some, List, [], ◌∷◌, ◌++◌, arith, if◌then◌else◌,
}
use gke_quick_prototype.Prelude.Int.{pos}
use gke_quick_prototype.Prelude.Text.{Text, codes, text_eq, text_eq_iff}
use gke_quick_prototype.Prelude.Map.{lookup}
use gke_quick_prototype.Store.{idle, pending, active, failed, claim_idle, claim, first_idle, get}
use gke_quick_prototype.Store.Invariant.{IsWellFormed}
use gke_quick_prototype.Store.Views.{view}
use gke_quick_prototype.Kube.{Pod, Call}
use gke_quick_prototype.PodState.{
  is_pod_ready, any_ready, is_ready_condition, derive_state, label_state, readiness_state,
  phase_state, container_state, tag_of,
}
use gke_quick_prototype.PodState.Derived.{is_broken, has_left_pool, is_serving, derive_state_lem}
use gke_quick_prototype.PodState.ImageTag.{tag_of_lem}
use gke_quick_prototype.Sync.{sync_store, is_live, is_deleted}
use gke_quick_prototype.Sync.Reflects.{last_live, Mirrors, sync_store-Mirrors}
use gke_quick_prototype.Sync.Carries.{KeepsOf, sync_store-Keeps}
use gke_quick_prototype.Gc.{gc, gc_reason}
use gke_quick_prototype.Gc.Calls.{asks_for, is_unwanted, calls-gc}
use gke_quick_prototype.Gc.Rules.{IsSpared, gc_reason-none}
use gke_quick_prototype.Gc.Sweep.{surviving, gc_lem}
use gke_quick_prototype.Reconciler.{sync}
use gke_quick_prototype.Reconciler.Whole.{listed_view, sync_lem}
use gke_quick_prototype.Provision.Race.{after_stale_sync, double_claim}
use gke_quick_prototype.Examples.Setup.{
  start, pool, pool-IsWellFormed, name_a, pod_named, sandbox_named, sync_inputs, gc_inputs,
  both_pods, reconcile_inputs,
}

-- A ready pod of the pool is idle.
pod_is_idle : derive_state (pod_named name_a) ≡ idle
unfolding derive_state label_state readiness_state phase_state container_state is_pod_ready
    any_ready is_ready_condition text_eq lookup
pod_is_idle = refl

sync_lem_example :
    IsWellFormed (sync reconcile_inputs start).store
    × ((j : Text)
        → view (sync reconcile_inputs start).store j
          ≡ listed_view reconcile_inputs start j (some both_pods))
sync_lem_example = sync_lem reconcile_inputs start pool-IsWellFormed

sync_store-Mirrors_example :
    Mirrors
      (last_live both_pods name_a)
      (view (sync_store sync_inputs both_pods (pos 9) start).store name_a)
sync_store-Mirrors_example =
    sync_store-Mirrors sync_inputs both_pods (pos 9) start name_a pool-IsWellFormed

a_known : view start.store name_a ≡ some (sandbox_named name_a)
unfolding view get lookup text_eq
a_known = refl

a_live : is_live both_pods name_a ≡ true
unfolding is_live is_deleted text_eq
a_live = refl

sync_store-Keeps_example :
    KeepsOf
      (sandbox_named name_a)
      (view (sync_store sync_inputs both_pods (pos 9) start).store name_a)
sync_store-Keeps_example =
    sync_store-Keeps sync_inputs both_pods (pos 9) start name_a (sandbox_named name_a)
      pool-IsWellFormed a_known a_live

gc_lem_example : view (gc gc_inputs start).store name_a ≡ surviving gc_inputs (view pool name_a)
gc_lem_example = gc_lem gc_inputs start name_a pool-IsWellFormed

calls-gc_example :
    (added : List Call) × ((gc gc_inputs start).calls ≡ [] ++ added)
    × ((j : Text) → asks_for (codes "sandbox") j added ≡ is_unwanted (pos 300) (view pool j))
calls-gc_example = calls-gc gc_inputs start pool-IsWellFormed

gc_reason-none_example :
    (gc_reason (pos 300) (sandbox_named name_a) ≡ none) ↔ IsSpared (pos 300) (sandbox_named name_a)
gc_reason-none_example = gc_reason-none (pos 300) (sandbox_named name_a)

derive_state_lem_example : derive_state (pod_named name_a) ≡ (
    if is_broken (pod_named name_a)
    then failed
    else if has_left_pool (pod_named name_a)
    then active
    else if is_serving (pod_named name_a)
    then idle
    else pending)
derive_state_lem_example = derive_state_lem (pod_named name_a)

two_tags :
    (tag_of (codes "localhost:5000/app" ++ b':' ∷ codes "v1") ≡ codes "v1")
    × (tag_of (codes "v1") ≡ codes "latest")
two_tags = tag_of_lem (codes "localhost:5000/app") (codes "v1") (omega arith)

abbrev one_pod : List Pod
one_pod = pod_named name_a ∷ []

a_claimed : (claim_idle start.store).0 ≡ some 0
unfolding claim_idle claim first_idle
a_claimed = refl

a_listed : last_live one_pod name_a ≡ some (pod_named name_a)
unfolding last_live is_deleted text_eq
a_listed = refl

only_a : (j : Text) (p : Pod) → last_live one_pod j ≡ some p → derive_state p ≡ idle → j ≡ name_a
unfolding last_live is_deleted
only_a j p e i = ground (arith, text_eq_iff name_a j)

double_claim_example :
    (q : ℕ) × ((claim_idle (after_stale_sync sync_inputs one_pod (pos 9) start).store).0 ≡ some q)
    × (((after_stale_sync sync_inputs one_pod (pos 9) start).store.heap q).name ≡ name_a)
double_claim_example =
    double_claim sync_inputs one_pod (pos 9) start 0 (pod_named name_a) pool-IsWellFormed a_claimed
      a_listed pod_is_idle only_a
