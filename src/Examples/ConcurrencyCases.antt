-- ===== src/Examples/ConcurrencyCases.antt =====
-- The goroutines on concrete inputs.
use gke_quick_prototype.Prelude.{◌≡◌, ◌≢◌, ℕ, refl, none, some, [], ◌∷◌, All}
use gke_quick_prototype.Prelude.Int.{pos}
use gke_quick_prototype.Prelude.Text.{text_eq, last_index}
use gke_quick_prototype.Store.{
  Ref, Sandbox, upsert, alloc, assign, write, claim, claim_idle, first_idle, new_store,
}
use gke_quick_prototype.Sync.{
  synced_sandbox, is_newly_scheduled, note_detach, carry_over, fresh_sandbox, claimed_at,
}
use gke_quick_prototype.Prelude.Map.{lookup, insert}
use gke_quick_prototype.PodState.{
  derive_state, container_state, phase_state, any_ready, extract_image_tag, is_crash_reason,
  is_pod_ready, is_ready_condition, label_state, readiness_state, tag_of, terminated_state,
  waiting_state,
}
use gke_quick_prototype.Concurrency.{System, init, on_store, Reach, start, later, syncs, claims}
use gke_quick_prototype.Concurrency.Exclusive.{IsExclusive, Reach-IsExclusive, claim_idle-apart}
use gke_quick_prototype.Examples.Setup.{sandbox_named, pod_named, name_a, sync_inputs}

abbrev no_cells : Ref → Sandbox
no_cells r = sandbox_named []

abbrev with_pod : System → System
with_pod =
    on_store λ s. upsert s.next (alloc (synced_sandbox sync_inputs (pod_named name_a) none) s)

abbrev with_claim : Ref → System → System
with_claim r u = record {
  store = (claim_idle u.store).1;
  in_flight = r ∷ u.in_flight;
  filing = u.filing;
}

abbrev empty : System
empty = init no_cells (pos 2)

-- A sync has found a pod, and a request has claimed it.
abbrev waiting : System
waiting = with_claim 0 (with_pod empty)

first_claim : (claim_idle (with_pod empty).store).0 ≡ some 0
unfolding claim_idle claim first_idle upsert insert alloc new_store assign write synced_sandbox
    is_newly_scheduled note_detach carry_over fresh_sandbox derive_state container_state phase_state
    text_eq any_ready extract_image_tag is_crash_reason is_pod_ready is_ready_condition label_state
    readiness_state tag_of terminated_state waiting_state lookup last_index claimed_at
first_claim = refl

waiting-Reach : Reach no_cells (pos 2) waiting
waiting-Reach =
    later (later start (syncs sync_inputs (pod_named name_a) none)) (claims 0 first_claim)

-- The list of a second sync still has the pod in the pool.
second_claim : (claim_idle (with_pod waiting).store).0 ≡ some 1
unfolding claim_idle claim first_idle upsert insert alloc new_store assign write synced_sandbox
    is_newly_scheduled note_detach carry_over fresh_sandbox derive_state container_state phase_state
    text_eq any_ready extract_image_tag is_crash_reason is_pod_ready is_ready_condition label_state
    readiness_state tag_of terminated_state waiting_state lookup last_index claimed_at
second_claim = refl

raced-Reach : Reach no_cells (pos 2) (with_pod waiting)
raced-Reach = later waiting-Reach (syncs sync_inputs (pod_named name_a) none)

-- Two requests hold two objects, and the objects have one pod.
one_pod_twice :
    Reach no_cells (pos 2) (with_claim 1 (with_pod waiting))
    × (((with_claim 1 (with_pod waiting)).store.heap 0).name
        ≡ ((with_claim 1 (with_pod waiting)).store.heap 1).name)
unfolding claim_idle claim first_idle upsert insert alloc new_store assign write synced_sandbox
    is_newly_scheduled note_detach carry_over fresh_sandbox derive_state container_state phase_state
    text_eq any_ready extract_image_tag is_crash_reason is_pod_ready is_ready_condition label_state
    readiness_state tag_of terminated_state waiting_state lookup last_index claimed_at
one_pod_twice = (later raced-Reach (claims 1 second_claim), refl)

Reach-IsExclusive_example : IsExclusive waiting
Reach-IsExclusive_example = Reach-IsExclusive waiting-Reach

claim_idle-apart_example : All {A = ℕ} (λ q. 1 ≢ q) (0 ∷ [])
claim_idle-apart_example = claim_idle-apart 1 raced-Reach second_claim
