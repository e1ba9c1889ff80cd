-- ===== src/PodState/Derived.antt =====
-- The state that the chain of assignments in `sync` ends with, as one table.
use gke_quick_prototype.Prelude.{
  Bool, false, ◌&&◌, ◌||◌, Option, none, some, List, [], ◌∷◌, ◌≡◌, refl, arith, if◌then◌else◌,
}
use gke_quick_prototype.Prelude.Int.{ℤ}
use gke_quick_prototype.Prelude.Text.{Text, codes}
use gke_quick_prototype.Prelude.Map.{lookup}
use gke_quick_prototype.Store.{State, idle, pending, active, failed}
use gke_quick_prototype.Kube.{Pod, ContainerStatus}
use gke_quick_prototype.PodState.{
  or_empty, is_text, is_pod_ready, is_crash_reason, is_nonzero, label_state, readiness_state,
  phase_state, waiting_state, terminated_state, container_state, derive_state,
}

abbrev crashes : Option Text → Bool
crashes none = false
crashes (some reason) = is_crash_reason reason

abbrev fails : Option ℤ → Bool
fails none = false
fails (some code) = is_nonzero code

pub any_broken : List ContainerStatus → Bool
any_broken [] = false
any_broken (cs ∷ rest) = (crashes cs.waiting || fails cs.terminated) || any_broken rest

-- The pod has failed, or nobody knows, or a container crashes, cannot get its image or has exited
-- with an error.
pub is_broken : Pod → Bool
is_broken pod =
    (is_text pod.phase "Failed" || is_text pod.phase "Unknown") || any_broken pod.statuses

pub has_left_pool : Pod → Bool
has_left_pool pod = is_text (or_empty (lookup (codes "warmpool") pod.labels)) "false"

pub is_serving : Pod → Bool
is_serving pod = is_text pod.phase "Running" && is_pod_ready pod

container_step :
    (w : Option Text) (t : Option ℤ) (st : State)
    → terminated_state t (waiting_state w st) ≡ (if crashes w || fails t then failed else st)
unfolding terminated_state waiting_state
container_step none none st = refl
container_step none (some code) st = refl
container_step (some reason) none st = ground arith
container_step (some reason) (some code) st = ground arith

container_state_lem :
    (l : List ContainerStatus) (st : State)
    → container_state l st ≡ (if any_broken l then failed else st)
unfolding container_state any_broken
container_state_lem [] st = refl
container_state_lem (cs ∷ rest) st = rw (container_step cs.waiting cs.terminated st) (
    ground (
      arith,
      container_state_lem rest (if crashes cs.waiting || fails cs.terminated then failed else st),
    ))

-- A broken pod is failed, whatever its labels; else one that has left the pool is active; else one
-- that runs and is ready is idle, and any other is pending.
pub derive_state_lem :
    (pod : Pod)
    → derive_state pod ≡ (
        if is_broken pod
        then failed
        else if has_left_pool pod
        then active
        else if is_serving pod
        then idle
        else pending)
unfolding derive_state label_state readiness_state phase_state is_broken has_left_pool is_serving
derive_state_lem pod = ground (
  arith,
  container_state_lem pod.statuses (phase_state pod (readiness_state pod (label_state pod))),
)
