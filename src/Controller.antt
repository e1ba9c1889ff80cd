-- ===== src/Controller.antt =====
-- The state that the controller's goroutines share: the store (app/controller/store.go), the
-- Prometheus instruments (app/controller/metrics.go), the kick channel (app/controller/main.go),
-- and the writing calls made so far on the API server.
use gke_quick_prototype.Prelude.{ℕ, ◌+◌, Bool, true, false, List, [], ◌∷◌, ◌++◌, ltb, if◌then◌else◌}
use gke_quick_prototype.Prelude.Int.{ℤ}
use gke_quick_prototype.Clock.{Duration}
use gke_quick_prototype.Store.{Store, StatusResponse}
use gke_quick_prototype.Kube.{Call}

-- The values of the label `reason` of sandbox_gc_total.
pub data Reason : Type 0 where
  ttl_expired gc_failed exited stale : Reason

abbrev pub same_reason : Reason → Reason → Bool
same_reason ttl_expired ttl_expired = true
same_reason gc_failed gc_failed = true
same_reason exited exited = true
same_reason stale stale = true
same_reason _ _ = false

-- A histogram is its observations, newest first.
pub record Instruments : Type 0 where
  pub schedule_duration : List Duration
  pub claim_to_ready : List Duration
  pub pool_size_gauge : ℤ
  pub idle_gauge : ℕ
  pub pending_gauge : ℕ
  pub active_gauge : ℕ
  pub failed_gauge : ℕ
  pub gc_total : Reason → ℕ
  pub sync_mismatch_total : ℕ
  pub claim_total : ℕ
  pub scheduled_total : ℕ

-- resetMetrics
unfoldable pub reset_metrics : Instruments → Instruments
reset_metrics i = record i { schedule_duration = []; claim_to_ready = [] }

unfoldable pub count_gc : Reason → Instruments → Instruments
count_gc r i = record i {
  gc_total = λ q. if same_reason r q then i.gc_total q + 1 else i.gc_total q;
}

-- updateGauges, on the status that it has read
unfoldable pub set_gauges : StatusResponse → Instruments → Instruments
set_gauges t i = record i {
  pool_size_gauge = t.status_pool_size;
  idle_gauge = t.idle_count;
  pending_gauge = t.pending_count;
  active_gauge = t.active_count;
  failed_gauge = t.failed_count;
}

-- `kicks` is how many signals wait in kickCh.
pub record Controller : Type 0 where
  pub store : Store
  pub instruments : Instruments
  pub kicks : ℕ
  pub calls : List Call

-- make(chan struct{}, 10)
abbrev pub kick_capacity : ℕ
kick_capacity = 10

-- select { case h.kickCh <- struct{}{}: default: }
unfoldable pub kick : Controller → Controller
kick c = if ltb c.kicks kick_capacity then record c { kicks = c.kicks + 1 } else c

unfoldable pub called : Call → Controller → Controller
called k c = record c { calls = c.calls ++ k ∷ [] }
