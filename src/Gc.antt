-- ===== src/Gc.antt =====
-- app/controller/reconciler.go: `gc` and `gcCompletedPods`.
pub mod Rules
pub mod Sweep
pub mod Calls
use gke_quick_prototype.Prelude.{
  ℕ, ◌*◌, Bool, true, false, not, ◌&&◌, Option, none, some, List, [], ◌∷◌, if◌then◌else◌,
}
use gke_quick_prototype.Prelude.Int.{pos, ltb_ℤ}
use gke_quick_prototype.Prelude.Text.{Text, codes}
use gke_quick_prototype.Clock.{Time, hour, minute, sub, after}
use gke_quick_prototype.Store.{State, active, failed, Ref, Sandbox, remove, list}
use gke_quick_prototype.Kube.{Pod, delete_pod}
use gke_quick_prototype.Controller.{
  Reason, ttl_expired, gc_failed, exited, stale, Controller, count_gc, called,
}
use gke_quick_prototype.PodState.{is_text}
use gke_quick_prototype.Sync.{is_active}

abbrev pub is_failed_state : State → Bool
is_failed_state failed = true
is_failed_state _ = false

-- The first case: the time to live is over.
unfoldable pub is_expired : Time → Sandbox → Bool
is_expired now sb = elim sb.expires_at [ none ↦ false | some t ↦ is_active sb.state && after now t ]

unfoldable pub is_exited : Sandbox → Bool
is_exited sb =
    is_active sb.state && not (is_text sb.phase "Running") && not (is_text sb.phase "Pending")

-- const maxUnlimitedLifetime = 24 * time.Hour
abbrev pub max_unlimited_lifetime : ℕ
max_unlimited_lifetime = 24 * hour

unfoldable pub outlives : Time → Option Time → Bool
outlives now none = false
outlives now (some t) = ltb_ℤ (pos max_unlimited_lifetime) (sub now t)

unfoldable pub is_stale : Time → Sandbox → Bool
is_stale now sb = elim sb.expires_at [
  | none ↦ is_active sb.state && outlives now sb.detached_at
  | some t ↦ false
]

-- The switch: the first case that applies gives the reason.
unfoldable pub gc_reason : Time → Sandbox → Option Reason
gc_reason now sb =
    if is_expired now sb
    then some ttl_expired
    else if is_failed_state sb.state
    then some gc_failed
    else if is_exited sb
    then some exited
    else if is_stale now sb
    then some stale
    else none

-- The namespace, the time of the call, and whether the API server carries out a deletion.
pub record GcEnv : Type 0 where
  pub namespace : Text
  pub now : Time
  pub deletes : Text → Bool

-- What follows the switch, with the reason that it found.
unfoldable pub collect : GcEnv → Sandbox → Option Reason → Controller → Controller
collect env sb none c = c
collect env sb (some reason) c =
    let c' =
      called (delete_pod env.namespace sb.name 0)
        (record c { instruments = count_gc reason c.instruments }) in
    if env.deletes sb.name then record c' { store = remove sb.name c'.store } else c'

unfoldable pub gc_each : GcEnv → List Ref → Controller → Controller
gc_each env [] c = c
gc_each env (r ∷ rs) c =
    let sb = c.store.heap r in gc_each env rs (collect env sb (gc_reason env.now sb) c)

unfoldable pub gc : GcEnv → Controller → Controller
gc env c = gc_each env (list c.store) c

-- The completed pods that a namespace lists (`none` if the call fails), and the clock as each is
-- looked at. The answers to the deletions are only logged.
pub record CompletedEnv : Type 0 where
  pub completed : Text → Option (List Pod)
  pub seen_at : Text → Pod → Time

unfoldable pub delete_completed : CompletedEnv → Text → List Pod → Controller → Controller
delete_completed env ns [] c = c
delete_completed env ns (pod ∷ pods) c = delete_completed env ns pods (
    if ltb_ℤ (sub (env.seen_at ns pod) pod.creation) (pos (2 * minute))
    then c
    else called (delete_pod ns pod.name 0) c)

unfoldable pub clean_namespace : CompletedEnv → Text → Controller → Controller
clean_namespace env ns c = elim (env.completed ns) [
  | none ↦ c
  | some pods ↦ delete_completed env ns pods c
]

unfoldable pub gc_completed_pods : CompletedEnv → Text → Controller → Controller
gc_completed_pods env namespace c =
    clean_namespace env (codes "sandbox-control") (clean_namespace env namespace c)
