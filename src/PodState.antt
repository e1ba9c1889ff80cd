-- ===== src/PodState.antt =====
-- app/controller/reconciler.go: what the reconciler reads off one pod: the first part of the loop
-- body of `sync`, `isPodReady`, `podReadyDuration` and `extractImageTag`.
pub mod Derived
pub mod ImageTag
use gke_quick_prototype.Prelude.{
  ◌+◌, ◌==◌, Bool, true, false, not, ◌&&◌, ◌||◌, Option, none, some, List, [], ◌∷◌, if◌then◌else◌,
  String,
}
use gke_quick_prototype.Prelude.Int.{ℤ, pos, negsuc}
use gke_quick_prototype.Prelude.Text.{Text, codes, text_eq, last_index, drop}
use gke_quick_prototype.Prelude.Map.{Map, lookup}
use gke_quick_prototype.Clock.{Time, Duration, sub, is_zero}
use gke_quick_prototype.Store.{State, idle, pending, active, failed, is_idle}
use gke_quick_prototype.Kube.{Pod, Condition, ContainerStatus}

-- m[k] on a map of texts: a missing key gives the empty text.
abbrev pub or_empty : Option Text → Text
or_empty none = []
or_empty (some t) = t

-- s == "literal"
abbrev pub is_text : Text → String → Bool
is_text s l = text_eq s (codes l)

unfoldable pub is_ready_condition : Condition → Bool
is_ready_condition c = is_text c.kind "Ready" && is_text c.status "True"

unfoldable pub any_ready : List Condition → Bool
any_ready [] = false
any_ready (c ∷ cs) = if is_ready_condition c then true else any_ready cs

unfoldable pub is_pod_ready : Pod → Bool
is_pod_ready pod = any_ready pod.conditions

-- The transition time of the first ready condition that has one.
unfoldable pub ready_since : List Condition → Option Time
ready_since [] = none
ready_since (c ∷ cs) =
    if is_ready_condition c && not (is_zero c.last_transition)
    then some c.last_transition
    else ready_since cs

-- The seconds that the source returns are nanoseconds here.
unfoldable pub pod_ready_duration : Time → Pod → Duration
pod_ready_duration now pod = elim (ready_since pod.conditions) [
  | some t ↦ sub t pod.creation
  | none ↦ sub now pod.creation
]

unfoldable pub tag_of : Text → Text
tag_of image = elim (last_index b':' image) [ some i ↦ drop (i + 1) image | none ↦ codes "latest" ]

unfoldable pub extract_image_tag : Pod → Text
extract_image_tag pod = elim pod.images [ [] ↦ [] | image ∷ rest ↦ tag_of image ]

unfoldable pub label_state : Pod → State
label_state pod =
    if is_text (or_empty (lookup (codes "warmpool") pod.labels)) "false" then active else idle

unfoldable pub readiness_state : Pod → State → State
readiness_state pod st =
    if is_idle st && (not (is_text pod.phase "Running") || not (is_pod_ready pod))
    then pending
    else st

unfoldable pub phase_state : Pod → State → State
phase_state pod st =
    if is_text pod.phase "Failed" || is_text pod.phase "Unknown" then failed else st

unfoldable pub is_crash_reason : Text → Bool
is_crash_reason reason =
    is_text reason "CrashLoopBackOff"
    || is_text reason "ImagePullBackOff"
    || is_text reason "ErrImagePull"

abbrev pub is_nonzero : ℤ → Bool
is_nonzero (pos n) = not (n == 0)
is_nonzero (negsuc n) = true

unfoldable pub waiting_state : Option Text → State → State
waiting_state none st = st
waiting_state (some reason) st = if is_crash_reason reason then failed else st

unfoldable pub terminated_state : Option ℤ → State → State
terminated_state none st = st
terminated_state (some code) st = if is_nonzero code then failed else st

-- The loop over the container statuses.
unfoldable pub container_state : List ContainerStatus → State → State
container_state [] st = st
container_state (cs ∷ rest) st =
    container_state rest (terminated_state cs.terminated (waiting_state cs.waiting st))

unfoldable pub derive_state : Pod → State
derive_state pod =
    container_state pod.statuses (phase_state pod (readiness_state pod (label_state pod)))
