-- ===== src/Sync/Reflects.antt =====
-- After a sync the store holds exactly the live pods, each with what the cluster says of it.
use gke_quick_prototype.Prelude.{
  Bool, true, false, not, ◌&&◌, ◌||◌, ◌≡◌, refl, Option, none, some, List, [], ◌∷◌, arith, inl, inr,
  Bool-cases, if◌then◌else◌,
}
use gke_quick_prototype.Prelude.Text.{Text, text_eq}
use gke_quick_prototype.Clock.{Time}
use gke_quick_prototype.Store.{Sandbox}
use gke_quick_prototype.Store.Invariant.{IsWellFormed}
use gke_quick_prototype.Store.Views.{view}
use gke_quick_prototype.Kube.{Pod}
use gke_quick_prototype.Controller.{Controller}
use gke_quick_prototype.PodState.{derive_state, is_pod_ready, extract_image_tag}
use gke_quick_prototype.Sync.{
  SyncEnv, fresh_sandbox, carry_over, note_detach, synced_sandbox, is_deleted, is_live, sync_store,
}
use gke_quick_prototype.Sync.Loop.{after_pod, after_pods, view-sync_store}

abbrev pub bears : Pod → Text → Bool
bears pod j = not (is_deleted pod) && text_eq pod.name j

later_live : Option Pod → List Pod → Text → Option Pod
later_live q [] j = q
later_live q (pod ∷ pods) j = later_live (if bears pod j then some pod else q) pods j

-- The last listed pod of a name that is not being deleted.
unfoldable pub last_live : List Pod → Text → Option Pod
unfolding later_live
last_live = later_live none

-- A sandbox says what its pod says.
pub record Reflects (pod : Pod) (sb : Sandbox) : Type 0 where
  pub same_name : sb.name ≡ pod.name
  pub same_state : sb.state ≡ derive_state pod
  pub same_creation : sb.created_at ≡ pod.creation
  pub same_ready : sb.ready ≡ is_pod_ready pod
  pub same_node : sb.node ≡ pod.node_name
  pub same_ip : sb.pod_ip ≡ pod.pod_ip
  pub same_phase : sb.phase ≡ pod.phase
  pub same_tag : sb.image_tag ≡ extract_image_tag pod

abbrev pub Mirrors : Option Pod → Option Sandbox → Type 0
Mirrors none none = Unit
Mirrors (some pod) (some sb) = Reflects pod sb
Mirrors _ _ = ⊥

pub synced-Reflects :
    (env : SyncEnv) (pod : Pod) (o : Option Sandbox) → Reflects pod (synced_sandbox env pod o)
unfolding synced_sandbox note_detach carry_over fresh_sandbox
synced-Reflects env pod none = ground arith
synced-Reflects env pod (some old) = ground arith

-- What the pods handled so far say of an entry; none of them may bear its name.
abbrev Shows : Option Pod → Option Sandbox → Type 0
Shows none o = Unit
Shows (some pod) none = ⊥
Shows (some pod) (some sb) = Reflects pod sb

after_pod-Shows :
    (env : SyncEnv) (pod : Pod) (j : Text) (o : Option Sandbox) (q : Option Pod)
    → Shows q o
    → Shows (if bears pod j then some pod else q) (after_pod env pod j o)
unfolding after_pod
after_pod-Shows env pod j o q m = elim (Bool-cases (bears pod j)) [
  | inl e ↦ rw (e, after_pod) (synced-Reflects env pod o)
  | inr e ↦ rw (e, after_pod) m
]

after_pods-Shows :
    (env : SyncEnv) (pods : List Pod) (j : Text) (o : Option Sandbox) (q : Option Pod)
    → Shows q o
    → Shows (later_live q pods j) (after_pods env pods j o)
unfolding later_live after_pods
after_pods-Shows env [] j o q m = m
after_pods-Shows env (pod ∷ pods) j o q m =
    after_pods-Shows env pods j (after_pod env pod j o) (if bears pod j then some pod else q)
      (after_pod-Shows env pod j o q m)

abbrev is_some : Option Pod → Bool
is_some none = false
is_some (some p) = true

is_live_lem :
    (pods : List Pod) (j : Text) (q : Option Pod)
    → is_some (later_live q pods j) ≡ (is_live pods j || is_some q)
unfolding later_live is_live
is_live_lem [] j q = refl
is_live_lem (pod ∷ pods) j q =
    ground (arith, is_live_lem pods j (if bears pod j then some pod else q))

Shows→Mirrors :
    (p : Option Pod) (b : Bool) (o : Option Sandbox)
    → is_some p ≡ b
    → Shows p o
    → Mirrors p (if b then o else none)
Shows→Mirrors none b o e m = rw (← e) tt
Shows→Mirrors (some p) b none e m = absurd m
Shows→Mirrors (some p) b (some sb) e m = rw (← e) m

-- After a sync of a well-formed store a name is known exactly if a listed pod that is not being
-- deleted bears it, and its sandbox then agrees with the last such pod in name, state (the one that
-- the pod's labels, phase, conditions and containers give), creation time, readiness, node,
-- address, phase and image tag.
pub sync_store-Mirrors :
    (env : SyncEnv) (pods : List Pod) (now : Time) (c : Controller) (j : Text)
    → IsWellFormed c.store
    → Mirrors (last_live pods j) (view (sync_store env pods now c).store j)
unfolding last_live
sync_store-Mirrors env pods now c j wf = rw (view-sync_store env pods now c j wf) (
    Shows→Mirrors (later_live none pods j) (is_live pods j) (after_pods env pods j (view c.store j))
      (ground (arith, is_live_lem pods j none))
      (after_pods-Shows env pods j (view c.store j) none tt))
