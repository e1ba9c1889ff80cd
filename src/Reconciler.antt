-- ===== src/Reconciler.antt =====
-- app/controller/reconciler.go: `sync` as a whole, `updateGauges`, and the loop of `Run`.
pub mod Whole
use gke_quick_prototype.Prelude.{ℕ, zero, suc, Bool, true, false, Option, none, some, List}
use gke_quick_prototype.Prelude.Int.{ℤ}
use gke_quick_prototype.Prelude.Text.{Text}
use gke_quick_prototype.Prelude.Map.{Map}
use gke_quick_prototype.Clock.{Time}
use gke_quick_prototype.Store.{status}
use gke_quick_prototype.Kube.{Pod, PodUsage}
use gke_quick_prototype.Controller.{Controller, set_gauges}
use gke_quick_prototype.Sync.{SyncEnv, fetch_metrics, adopt_replicas, sync_store}
use gke_quick_prototype.Gc.{GcEnv, gc, CompletedEnv, gc_completed_pods}

-- What one sync gets from outside: the answers of the API server (`none` for a failed call) and
-- the readings of the clock.
pub record ReconcileEnv : Type 0 where
  pub pods : Option (List Pod)
  pub replicas : Option (Option ℤ)
  pub usage : Option (List PodUsage)
  pub pod_clock : Text → Time
  pub synced_at : Time
  pub gauged_at : Time
  pub gc_env : GcEnv
  pub completed_env : CompletedEnv

abbrev pub sync_env : ReconcileEnv → SyncEnv
sync_env env = record { pod_now = env.pod_clock; metrics_map = fetch_metrics env.usage }

unfoldable pub update_gauges : Time → Controller → Controller
update_gauges now c =
    let i = c.instruments in
    record c { instruments = set_gauges (status now i.claim_total i.scheduled_total c.store) i }

-- Past the early return.
unfoldable pub sync_listed : ReconcileEnv → List Pod → Controller → Controller
sync_listed env pods c =
    let adopted = record c { store = adopt_replicas env.replicas c.store } in
    let synced = sync_store (sync_env env) pods env.synced_at adopted in
    let gauged = update_gauges env.gauged_at synced in
    gc_completed_pods env.completed_env env.gc_env.namespace (gc env.gc_env gauged)

unfoldable pub sync : ReconcileEnv → Controller → Controller
sync env c = elim env.pods [ none ↦ c | some pods ↦ sync_listed env pods c ]

-- for len(r.kickCh) > 0 { <-r.kickCh }
unfoldable pub drain : ℕ → ℕ
drain zero = zero
drain (suc n) = drain n

-- What `select` wakes up to; a kick is received with one signal in the channel at least.
pub data Wake : Type 0 where
  done tick kicked : Wake

-- One round of the loop; `none` is the return.
unfoldable pub run_round : ReconcileEnv → Wake → Controller → Option Controller
run_round env done c = none
run_round env tick c = some (sync env c)
run_round env kicked c = some (sync env (record c { kicks = drain c.kicks }))
