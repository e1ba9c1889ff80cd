-- ===== src/Concurrency.antt =====
-- The goroutines of the controller as steps on the store that they share: app/controller/store.go,
-- with the callers in app/controller/handlers.go and app/controller/reconciler.go. A step is what
-- runs under one hold of the store's lock, or the writes through a claimed pointer, which
-- handleProvision makes without it; between two steps any goroutine may run.
pub mod Exclusive
use gke_quick_prototype.Prelude.{◌≡◌, ℕ, Bool, Option, some, List, [], ◌∷◌, ◌++◌}
use gke_quick_prototype.Prelude.Int.{ℤ}
use gke_quick_prototype.Prelude.Text.{Text}
use gke_quick_prototype.Clock.{Time}
use gke_quick_prototype.Store.{
  idle, Ref, Sandbox, Store, new_store, write, alloc, upsert, remove, claim_idle, set_pool_size,
  reset_observations, record_sync_success, prune,
}
use gke_quick_prototype.Kube.{Pod}
use gke_quick_prototype.Provision.{ProvisionEnv, claimed_sandbox}
use gke_quick_prototype.Sync.{SyncEnv, synced_sandbox}

-- `in_flight` are the pointers of the requests that wait for the answer to their patch, and
-- `filing` those of the requests that have their answer and have yet to call Upsert.
pub record System : Type 0 where
  pub store : Store
  pub in_flight : List Ref
  pub filing : List Ref

abbrev pub init : (Ref → Sandbox) → ℤ → System
init heap size = record { store = new_store heap size; in_flight = []; filing = [] }

abbrev pub on_store : (Store → Store) → System → System
on_store f u = record u { store = f u.store }

-- The two ways in which a patch is answered: what the handler writes to the claimed sandbox.
pub data Answer : Type 0 where
  refused : Answer
  accepted : ProvisionEnv → Text → Option Time → Answer

unfoldable pub answered_sandbox : Answer → Sandbox → Sandbox
answered_sandbox refused sb = record sb { state = idle }
answered_sandbox (accepted env lifetime expires_at) sb = claimed_sandbox env lifetime expires_at sb

pub data Step (u : System) : System → Type 0 where
  claims :
      (r : Ref)
      → (claim_idle u.store).0 ≡ some r
      → Step u (record {
        store = (claim_idle u.store).1;
        in_flight = r ∷ u.in_flight;
        filing = u.filing;
      })
  answers :
      (a : Answer) (before : List Ref) (r : Ref) (after : List Ref)
      → u.in_flight ≡ before ++ r ∷ after
      → Step u (record {
        store = write r (answered_sandbox a (u.store.heap r)) u.store;
        in_flight = before ++ after;
        filing = r ∷ u.filing;
      })
  files :
      (before : List Ref) (r : Ref) (after : List Ref)
      → u.filing ≡ before ++ r ∷ after
      → Step u
          (record { store = upsert r u.store; in_flight = u.in_flight; filing = before ++ after })
  -- The entry that the reconciler has read before may have changed since.
  syncs :
      (env : SyncEnv) (pod : Pod) (existing : Option Sandbox)
      → Step u (on_store (λ s. upsert s.next (alloc (synced_sandbox env pod existing) s)) u)
  prunes : (live : Text → Bool) → Step u (on_store (λ s. (prune live s).1) u)
  records : (now : Time) (mismatches : ℕ) → Step u (on_store (record_sync_success now mismatches) u)
  resizes : (size : ℤ) → Step u (on_store (set_pool_size size) u)
  removes : (name : Text) → Step u (on_store (remove name) u)
  resets : Step u (on_store reset_observations u)

pub data Reach (heap : Ref → Sandbox) (size : ℤ) : System → Type 0 where
  start : Reach heap size (init heap size)
  later : {u v : System} → Reach heap size u → Step u v → Reach heap size v
