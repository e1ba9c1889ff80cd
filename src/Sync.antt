-- ===== src/Sync.antt =====
-- app/controller/reconciler.go: `fetchMetrics`, and the part of `sync` that brings the store in
-- line with the pods that the API server lists.
pub mod Loop
pub mod Reflects
pub mod Carries
pub mod Unique
pub mod Counted
pub mod Again
use gke_quick_prototype.Prelude.{
  ℕ, zero, suc, ◌+◌, ◌*◌, ◌/◌, ◌%◌, ◌^◌, Bool, true, false, not, ◌&&◌, ◌||◌, Option, none, some,
  List, [], ◌∷◌, if◌then◌else◌,
}
use gke_quick_prototype.Prelude.Int.{ℤ}
use gke_quick_prototype.Prelude.Text.{Text, codes, text_eq}
use gke_quick_prototype.Prelude.Map.{Map, lookup, insert}
use gke_quick_prototype.Clock.{Time, Duration}
use gke_quick_prototype.Store.{
  State, idle, pending, provisioning, active, failed, Ref, Sandbox, PodMetrics, Store, is_idle,
  is_pending, alloc, upsert, get, set_pool_size, prune, record_sync_success,
}
use gke_quick_prototype.Store.Views.{view}
use gke_quick_prototype.Store.Counts.{is_claimed}
use gke_quick_prototype.Kube.{Pod, Usage, PodUsage}
use gke_quick_prototype.Controller.{Controller, Instruments}
use gke_quick_prototype.Rfc3339.{parse_rfc3339}
use gke_quick_prototype.PodState.{derive_state, is_pod_ready, pod_ready_duration, extract_image_tag}

-- m.CPUMillis += …, in int64
unfoldable pub add_usage : PodMetrics → Usage → PodMetrics
add_usage m u = record {
  cpu_millis = (m.cpu_millis + u.cpu) % 2 ^ 64;
  memory_mib = (m.memory_mib + u.memory / (1024 * 1024)) % 2 ^ 64;
  disk_mib = (m.disk_mib + u.ephemeral / (1024 * 1024)) % 2 ^ 64;
}

unfoldable pub total_usage : PodMetrics → List Usage → PodMetrics
total_usage m [] = m
total_usage m (u ∷ us) = total_usage (add_usage m u) us

abbrev pub no_usage : PodMetrics
no_usage = record { cpu_millis = 0; memory_mib = 0; disk_mib = 0 }

unfoldable pub collect_usage : List PodUsage → Map PodMetrics → Map PodMetrics
collect_usage [] result = result
collect_usage (pm ∷ rest) result =
    collect_usage rest (insert pm.pod (total_usage no_usage pm.containers) result)

-- The list is `none` where there is no metrics client or the call fails.
unfoldable pub fetch_metrics : Option (List PodUsage) → Map PodMetrics
fetch_metrics none = []
fetch_metrics (some items) = collect_usage items []

-- What the loop asks of the outside: the clock while a pod is handled, and the metrics.
pub record SyncEnv : Type 0 where
  pub pod_now : Text → Time
  pub metrics_map : Map PodMetrics

-- sb := &Sandbox{…}, and the metrics.
unfoldable pub fresh_sandbox : SyncEnv → Pod → Sandbox
fresh_sandbox env pod = record {
  name = pod.name;
  state = derive_state pod;
  created_at = pod.creation;
  detached_at = none;
  expires_at = none;
  ready = is_pod_ready pod;
  node = pod.node_name;
  pod_ip = pod.pod_ip;
  phase = pod.phase;
  image_tag = extract_image_tag pod;
  config = none;
  metrics = lookup pod.name env.metrics_map;
  schedule_observed = false;
  ready_observed = false;
}

-- if exists { … }
unfoldable pub carry_over : Option Sandbox → Sandbox → Sandbox
carry_over none sb = sb
carry_over (some old) sb = record sb {
  config = old.config;
  detached_at = old.detached_at;
  expires_at = old.expires_at;
  schedule_observed = old.schedule_observed;
  ready_observed = old.ready_observed;
}

abbrev pub or_now : Option Time → Time → Time
or_now (some t) now = t
or_now none now = now

-- The time that the annotation gives, if there is one that parses.
unfoldable pub claimed_at : Pod → Option Time
claimed_at pod = elim (lookup (codes "sandbox.gvisor/claimed-at") pod.annotations) [
  | none ↦ none
  | some text ↦ parse_rfc3339 text
]

abbrev pub is_active : State → Bool
is_active active = true
is_active _ = false

-- The two ifs that detect a detachment.
unfoldable pub note_detach : SyncEnv → Pod → Option Sandbox → Sandbox → Sandbox
note_detach env pod none sb =
    if is_active sb.state
    then record sb {
      detached_at = some (or_now (claimed_at pod) (env.pod_now pod.name));
      ready_observed = true;
    }
    else sb
note_detach env pod (some old) sb =
    if is_active sb.state && (is_idle old.state || is_pending old.state)
    then record sb { detached_at = some (env.pod_now pod.name) }
    else sb

unfoldable pub is_mismatch : Option Sandbox → State → Bool
is_mismatch none st = false
is_mismatch (some old) st = is_idle st && is_claimed old.state

-- A pod is first seen ready in the pool.
unfoldable pub is_newly_scheduled : Sandbox → Bool
is_newly_scheduled sb = is_idle sb.state && sb.ready && not sb.schedule_observed

unfoldable pub synced_sandbox : SyncEnv → Pod → Option Sandbox → Sandbox
synced_sandbox env pod existing =
    let sb = note_detach env pod existing (carry_over existing (fresh_sandbox env pod)) in
    if is_newly_scheduled sb then record sb { schedule_observed = true } else sb

unfoldable pub count_mismatch : Bool → Instruments → Instruments
count_mismatch b i = if b then record i { sync_mismatch_total = i.sync_mismatch_total + 1 } else i

unfoldable pub count_scheduled : Bool → Duration → Instruments → Instruments
count_scheduled b d i =
    if b
    then record i {
      schedule_duration = d ∷ i.schedule_duration;
      scheduled_total = i.scheduled_total + 1;
    }
    else i

unfoldable pub is_deleted : Pod → Bool
is_deleted pod = elim pod.deletion [ none ↦ false | some t ↦ true ]

-- One round of the loop, past its `continue`; the number is `mismatchCount`.
unfoldable pub sync_pod : SyncEnv → Pod → Controller × ℕ → Controller × ℕ
sync_pod env pod (c, mismatches) =
    let existing = view c.store pod.name in
    let sb = note_detach env pod existing (carry_over existing (fresh_sandbox env pod)) in
    let mismatch = is_mismatch existing sb.state in
    let seen =
      count_scheduled (is_newly_scheduled sb) (pod_ready_duration (env.pod_now pod.name) pod)
        (count_mismatch mismatch c.instruments) in
    (
      record c {
        store = upsert c.store.next (alloc (synced_sandbox env pod existing) c.store);
        instruments = seen;
      },
      if mismatch then mismatches + 1 else mismatches,
    )

unfoldable pub sync_round : SyncEnv → Pod → Controller × ℕ → Controller × ℕ
sync_round env pod acc = if is_deleted pod then acc else sync_pod env pod acc

unfoldable pub sync_pods : SyncEnv → List Pod → Controller × ℕ → Controller × ℕ
sync_pods env [] acc = acc
sync_pods env (pod ∷ pods) acc = sync_pods env pods (sync_round env pod acc)

-- liveNames
unfoldable pub is_live : List Pod → Text → Bool
is_live [] name = false
is_live (pod ∷ pods) name = (not (is_deleted pod) && text_eq pod.name name) || is_live pods name

-- Deployment replicas: `none` if the call fails, `some none` if the field is nil.
unfoldable pub adopt_replicas : Option (Option ℤ) → Store → Store
adopt_replicas (some (some replicas)) s = set_pool_size replicas s
adopt_replicas _ s = s

-- The loop, then Prune and RecordSyncSuccess.
unfoldable pub sync_store : SyncEnv → List Pod → Time → Controller → Controller
sync_store env pods now c =
    let (c', mismatches) = sync_pods env pods (c, 0) in
    let (pruned, s) = prune (is_live pods) c'.store in
    record c' { store = record_sync_success now mismatches s }
