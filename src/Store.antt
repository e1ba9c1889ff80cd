-- ===== src/Store.antt =====
-- app/controller/store.go: the store, the in-memory source of truth for all sandbox state.
--
-- Go keeps a map from names to pointers, and handlers hold such a pointer while other code runs.
-- So the model has a heap: a sandbox is a cell, a pointer is the number of its cell, and the map
-- leads from a name to a pointer. Each method holds the store's lock to its end, so it is one step.
pub mod Invariant
pub mod Views
pub mod Claim
pub mod Counts
pub mod Reset
pub mod Order
pub mod Refines
use gke_quick_prototype.Prelude.{
  ℕ, suc, ◌+◌, ◌-◌, Bool, true, false, not, ◌&&◌, ◌||◌, Option, none, some, List, [], ◌∷◌, map,
  ◌==◌, ◌*◌, if◌then◌else◌,
}
use gke_quick_prototype.Prelude.Int.{ℤ, pos, negsuc, ltb_ℤ}
use gke_quick_prototype.Prelude.Text.{Text}
use gke_quick_prototype.Prelude.Map.{Map, lookup, insert, erase, retain}
use gke_quick_prototype.Clock.{Time, Duration, second, sub, is_zero}

-- The controller writes one of these five texts into Sandbox.State, and nothing else.
pub data State : Type 0 where
  idle pending provisioning active failed : State

pub record ProvisionConfig : Type 0 where
  pub lifetime : Text

-- int64 values, as their 64-bit patterns.
pub record PodMetrics : Type 0 where
  pub cpu_millis : ℕ
  pub memory_mib : ℕ
  pub disk_mib : ℕ

pub record Sandbox : Type 0 where
  pub name : Text
  pub state : State
  pub created_at : Time
  pub detached_at : Option Time
  pub expires_at : Option Time
  pub ready : Bool
  pub node : Text
  pub pod_ip : Text
  pub phase : Text
  pub image_tag : Text
  pub config : Option ProvisionConfig
  pub metrics : Option PodMetrics
  pub schedule_observed : Bool
  pub ready_observed : Bool

pub record StatusResponse : Type 0 where
  pub idle_count : ℕ
  pub pending_count : ℕ
  pub active_count : ℕ
  pub failed_count : ℕ
  pub total : ℕ
  pub status_pool_size : ℤ
  pub last_sync_ns : Duration
  pub synced : Bool
  pub status_mismatch : ℕ
  pub total_claims : ℕ
  pub total_scheduled : ℕ

-- A pointer to a sandbox.
abbrev pub Ref : Type 0
Ref = ℕ

-- `next` is the first cell that no `&Sandbox{...}` has taken.
pub record Store : Type 0 where
  pub heap : Ref → Sandbox
  pub next : Ref
  pub sandboxes : Map Ref
  pub pool_size : ℤ
  pub last_sync : Time
  pub mismatch_count : ℕ

-- *r = v
unfoldable pub assign : Ref → Sandbox → (Ref → Sandbox) → Ref → Sandbox
assign r v h q = if r == q then v else h q

unfoldable pub write : Ref → Sandbox → Store → Store
write r v s = record s { heap = assign r v s.heap }

-- r := &Sandbox{...}; the pointer is `s.next`
unfoldable pub alloc : Sandbox → Store → Store
alloc v s = record s { heap = assign s.next v s.heap; next = suc s.next }

unfoldable pub new_store : (Ref → Sandbox) → ℤ → Store
new_store h size = record {
  heap = h;
  next = 0;
  sandboxes = [];
  pool_size = size;
  last_sync = pos 0;
  mismatch_count = 0;
}

unfoldable pub set_pool_size : ℤ → Store → Store
set_pool_size size s = record s { pool_size = size }

unfoldable pub get_pool_size : Store → ℤ
get_pool_size s = s.pool_size

unfoldable pub upsert : Ref → Store → Store
upsert r s = record s { sandboxes = insert (s.heap r).name r s.sandboxes }

unfoldable pub remove : Text → Store → Store
remove name s = record s { sandboxes = erase name s.sandboxes }

unfoldable pub get : Text → Store → Option Ref
get name s = lookup name s.sandboxes

unfoldable pub list : Store → List Ref
list s = map (λ e. e.1) s.sandboxes

abbrev pub is_idle : State → Bool
is_idle idle = true
is_idle _ = false

abbrev pub is_pending : State → Bool
is_pending pending = true
is_pending _ = false

-- One round of ResetObservations.
unfoldable pub reset_sandbox : Sandbox → Sandbox
reset_sandbox sb =
    let cleared = record sb { schedule_observed = false } in
    if is_idle sb.state || is_pending sb.state
    then record cleared { ready_observed = false }
    else cleared

unfoldable pub reset_all : Map Ref → (Ref → Sandbox) → Ref → Sandbox
reset_all [] h = h
reset_all ((n, r) ∷ m) h = reset_all m (assign r (reset_sandbox (h r)) h)

unfoldable pub reset_observations : Store → Store
reset_observations s = record s { heap = reset_all s.sandboxes s.heap }

unfoldable pub first_idle : (Ref → Sandbox) → Map Ref → Option Ref
first_idle h [] = none
first_idle h ((n, r) ∷ m) = if is_idle (h r).state then some r else first_idle h m

-- The body of the loop's `if`, and the `return nil` behind the loop.
unfoldable pub claim : Store → Option Ref → Option Ref × Store
claim s none = (none, s)
claim s (some r) = (some r, write r (record (s.heap r) { state = provisioning }) s)

unfoldable pub claim_idle : Store → Option Ref × Store
claim_idle s = claim s (first_idle s.heap s.sandboxes)

-- One case of the switch, and the `resp.Total++` behind it.
unfoldable pub tally : State → StatusResponse → StatusResponse
tally idle t = record t { idle_count = t.idle_count + 1; total = t.total + 1 }
tally pending t = record t { pending_count = t.pending_count + 1; total = t.total + 1 }
tally provisioning t = record t { active_count = t.active_count + 1; total = t.total + 1 }
tally active t = record t { active_count = t.active_count + 1; total = t.total + 1 }
tally failed t = record t { failed_count = t.failed_count + 1; total = t.total + 1 }

unfoldable pub tally_all : (Ref → Sandbox) → Map Ref → StatusResponse → StatusResponse
tally_all h [] t = t
tally_all h ((n, r) ∷ m) t = tally_all h m (tally (h r).state t)

-- LastSyncSec, in nanoseconds.
unfoldable pub since_sync : Time → Store → Duration
since_sync now s = if is_zero s.last_sync then negsuc (second - 1) else sub now s.last_sync

-- `resp` before the loop. The counters are those that extractCounterValue reads.
unfoldable pub status_header : Time → ℕ → ℕ → Store → StatusResponse
unfolding since_sync
status_header now claims scheduled s = record {
  idle_count = 0;
  pending_count = 0;
  active_count = 0;
  failed_count = 0;
  total = 0;
  status_pool_size = s.pool_size;
  last_sync_ns = since_sync now s;
  synced = not (is_zero s.last_sync) && ltb_ℤ (since_sync now s) (pos (15 * second));
  status_mismatch = s.mismatch_count;
  total_claims = claims;
  total_scheduled = scheduled;
}

unfoldable pub status : Time → ℕ → ℕ → Store → StatusResponse
status now claims scheduled s = tally_all s.heap s.sandboxes (status_header now claims scheduled s)

unfoldable pub record_sync_success : Time → ℕ → Store → Store
record_sync_success now mismatches s = record s { last_sync = now; mismatch_count = mismatches }

unfoldable pub prune_count : (Text → Bool) → Map Ref → ℕ
prune_count live [] = 0
prune_count live ((n, r) ∷ m) = let rest = prune_count live m in if live n then rest else rest + 1

unfoldable pub prune : (Text → Bool) → Store → ℕ × Store
prune live s = (prune_count live s.sandboxes, record s { sandboxes = retain live s.sandboxes })
