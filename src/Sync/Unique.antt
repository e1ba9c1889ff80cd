-- ===== src/Sync/Unique.antt =====
-- A sync of pods that have names of their own, as those of a namespace have.
use gke_quick_prototype.Prelude.{
  false, not, ◌&&◌, ◌≡◌, refl, ◌∙◌, Option, none, some, List, [], ◌∷◌, arith, inl, inr, Bool-cases,
  if◌then◌else◌,
}
use gke_quick_prototype.Prelude.Text.{Text, text_eq, text_eq_iff}
use gke_quick_prototype.Clock.{Time}
use gke_quick_prototype.Store.{Sandbox}
use gke_quick_prototype.Store.Invariant.{IsWellFormed}
use gke_quick_prototype.Store.Views.{view}
use gke_quick_prototype.Kube.{Pod}
use gke_quick_prototype.Controller.{Controller}
use gke_quick_prototype.Sync.{SyncEnv, synced_sandbox, is_deleted, is_live, sync_store}
use gke_quick_prototype.Sync.Loop.{after_pod, after_pods, view-sync_store}

-- No name twice among the pods that are not being deleted.
abbrev pub IsUnique : List Pod → Type 0
IsUnique [] = Unit
IsUnique (pod ∷ pods) = (is_live pods pod.name ≡ false) × IsUnique pods

-- The pod of a name that is not being deleted.
unfoldable pub pod_of : List Pod → Text → Option Pod
pod_of [] j = none
pod_of (pod ∷ pods) j =
    if not (is_deleted pod) && text_eq pod.name j then some pod else pod_of pods j

-- What a sync makes of an entry, given the pod of its name.
abbrev pub synced : SyncEnv → Option Pod → Option Sandbox → Option Sandbox
synced env none o = none
synced env (some pod) o = some (synced_sandbox env pod o)

after_pods-dead :
    (env : SyncEnv) (pods : List Pod) (j : Text) (o : Option Sandbox)
    → is_live pods j ≡ false
    → after_pods env pods j o ≡ o
unfolding after_pods after_pod is_live
after_pods-dead env [] j o h = refl
after_pods-dead env (pod ∷ pods) j o h = ground (arith, h, after_pods-dead env pods j o)

pub after_pods-synced :
    (env : SyncEnv) (pods : List Pod) (j : Text) (o : Option Sandbox)
    → IsUnique pods
    → (if is_live pods j then after_pods env pods j o else none) ≡ synced env (pod_of pods j) o
unfolding after_pods after_pod is_live pod_of
after_pods-synced env [] j o u = refl
after_pods-synced env (pod ∷ pods) j o (apart, u) =
    elim (Bool-cases (not (is_deleted pod) && text_eq pod.name j)) [
      | inl e ↦
          rw (e, after_pod)
            (after_pods-dead env pods j _ (ground (arith, apart, e, text_eq_iff pod.name j)))
      | inr e ↦ rw (e, after_pod) (after_pods-synced env pods j o u)
    ]

-- Where the listed pods have names of their own, a sync of a well-formed store leads a name to what
-- the pod of that name makes of its entry, and to nothing if there is no such pod.
pub view-sync_store-synced :
    (env : SyncEnv) (pods : List Pod) (now : Time) (c : Controller) (j : Text)
    → IsWellFormed c.store
    → IsUnique pods
    → view (sync_store env pods now c).store j ≡ synced env (pod_of pods j) (view c.store j)
view-sync_store-synced env pods now c j wf u =
    view-sync_store env pods now c j wf ∙ after_pods-synced env pods j (view c.store j) u
