-- ===== src/Examples/LifecycleCases.antt =====
-- A claimed sandbox through two syncs.
use gke_quick_prototype.Prelude.{
  ◌*◌, ◌≡◌, refl, none, some, List, [], ◌∷◌, inl, ◌&&◌, if◌then◌else◌,
}
use gke_quick_prototype.Prelude.Int.{pos, ◌+ℤ◌}
use gke_quick_prototype.Prelude.Text.{codes, text_eq}
use gke_quick_prototype.Prelude.Map.{lookup}
use gke_quick_prototype.Clock.{minute, add}
use gke_quick_prototype.Store.{active, Sandbox}
use gke_quick_prototype.Store.Views.{view}
use gke_quick_prototype.Kube.{Pod}
use gke_quick_prototype.PodState.{
  is_pod_ready, any_ready, is_ready_condition, derive_state, label_state, readiness_state,
  phase_state, container_state,
}
use gke_quick_prototype.Sync.{is_live, is_deleted}
use gke_quick_prototype.Sync.Unique.{IsUnique, pod_of}
use gke_quick_prototype.Gc.{GcEnv}
use gke_quick_prototype.Reconciler.{ReconcileEnv, sync}
use gke_quick_prototype.Provision.{handle_provision}
use gke_quick_prototype.Lifecycle.{run_ticks, terms_of, IsHeld, is_over, Lists, Spares}
use gke_quick_prototype.Lifecycle.Held.{claimed_until_over}
use gke_quick_prototype.Examples.HandlerCases.{
  five_minutes, granted_expiry, default_asked, first_claimed,
}
use gke_quick_prototype.Examples.Setup.{
  start, pool-IsWellFormed, name_a, name_b, pod_named, reconcile_inputs, gc_inputs, provision_env,
}

abbrev pub claimed_pod : Pod
claimed_pod = record (pod_named name_a) {
  labels = (codes "warmpool", codes "false") ∷ [];
  annotations = (codes "sandbox.gvisor/claimed-at", codes "2026-04-01T14:00:00+02:00") ∷ [];
}

abbrev pub claimed_pods : List Pod
claimed_pods = claimed_pod ∷ pod_named name_b ∷ []

pub claimed_pods-IsUnique : IsUnique claimed_pods
unfolding is_live is_deleted text_eq
claimed_pods-IsUnique = (refl, (refl, tt))

pub claimed_pod-active : derive_state claimed_pod ≡ active
unfolding derive_state label_state readiness_state phase_state container_state is_pod_ready
    any_ready is_ready_condition text_eq lookup
claimed_pod-active = refl

pub claimed_pod_of : pod_of claimed_pods name_a ≡ some claimed_pod
unfolding pod_of is_deleted text_eq
claimed_pod_of = refl

-- A sync that lists both pods, with this run of the collector.
abbrev pub held_at : GcEnv → ReconcileEnv
held_at env = record reconcile_inputs { pods = some claimed_pods; gc_env = env }

abbrev pub listing : (env : GcEnv) → Lists name_a (held_at env)
listing env = record {
  pods = claimed_pods;
  pod = claimed_pod;
  listed = refl;
  unique = claimed_pods-IsUnique;
  found = claimed_pod_of;
  left_pool = claimed_pod-active;
  in_service = inl refl;
}

abbrev held_sync : ReconcileEnv
held_sync = held_at gc_inputs

-- After ten minutes.
abbrev late : GcEnv
late = record gc_inputs { now = pos (10 * minute) }

held-Spares : Spares (terms_of provision_env (codes "5m") five_minutes) name_a held_sync
unfolding is_over add ◌+ℤ◌
held-Spares = (listing gc_inputs, refl)

claimed_until_over_example :
    (sb : Sandbox) × IsHeld (terms_of provision_env (codes "5m") five_minutes) sb
    × (view
          (sync
            (held_at late)
            (run_ticks (held_sync ∷ []) (handle_provision provision_env start).1)).store
          name_a
        ≡ (if is_over (pos (10 * minute)) five_minutes (some (pos 104)) && gc_inputs.deletes name_a
            then none
            else some sb))
claimed_until_over_example =
    claimed_until_over provision_env (codes "5m") five_minutes start 0 default_asked granted_expiry
      first_claimed pool-IsWellFormed refl (held_sync ∷ []) (held_at late) (held-Spares, tt)
      (listing late)
