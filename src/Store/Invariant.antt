-- ===== src/Store/Invariant.antt =====
-- The well-formedness of a store: no name stands twice in the map, every entry's pointer leads to
-- an allocated sandbox, and that sandbox carries the name under which it is filed.
use gke_quick_prototype.Prelude.{
  ℕ, suc, ◌<◌, ◌≡◌, refl, Bool, Option, none, some, [], ◌∷◌, arith, All,
}
use gke_quick_prototype.Prelude.Int.{ℤ}
use gke_quick_prototype.Prelude.Text.{Text}
use gke_quick_prototype.Prelude.Map.{
  Map, insert-Distinct, erase-Distinct, retain-Distinct, Distinct, All-insert, All-erase,
  All-retain, All-lookup,
}
use gke_quick_prototype.Clock.{Time}
use gke_quick_prototype.Store.{
  Ref, Sandbox, Store, provisioning, assign, write, alloc, set_pool_size, upsert, remove, get,
  first_idle, claim, claim_idle, reset_sandbox, reset_all, reset_observations, record_sync_success,
  prune,
}

abbrev pub Filed : (Ref → Sandbox) → Ref → Text × Ref → Type 0
Filed h next e = (e.1 < next) × ((h e.1).name ≡ e.0)

pub record IsWellFormed (s : Store) : Type 0 where
  pub distinct : Distinct s.sandboxes
  pub filed : All (Filed s.heap s.next) s.sandboxes

Filed-assign :
    (h : Ref → Sandbox) (next : Ref) (r : Ref) (v : Sandbox) (m : Map Ref)
    → v.name ≡ (h r).name
    → All (Filed h next) m
    → All (Filed (assign r v h) next) m
unfolding assign
Filed-assign h next r v [] e a = tt
Filed-assign h next r v ((n, q) ∷ m) e a = ground (arith, Filed-assign h next r v m e a.1)

Filed-alloc :
    (h : Ref → Sandbox) (next : Ref) (v : Sandbox) (m : Map Ref)
    → All (Filed h next) m
    → All (Filed (assign next v h) (suc next)) m
unfolding assign
Filed-alloc h next v [] a = tt
Filed-alloc h next v ((n, q) ∷ m) a = ground (arith, Filed-alloc h next v m a.1)

module _ (s : Store) (wf : IsWellFormed s) where
  -- A write through a pointer that leaves the name alone.
  pub write-IsWellFormed :
      (r : Ref) (v : Sandbox) → v.name ≡ (s.heap r).name → IsWellFormed (write r v s)
  unfolding write
  write-IsWellFormed r v e = record {
    distinct = wf.distinct;
    filed = Filed-assign s.heap s.next r v s.sandboxes e wf.filed;
  }

  pub alloc-IsWellFormed : (v : Sandbox) → IsWellFormed (alloc v s)
  unfolding alloc
  alloc-IsWellFormed v = record {
    distinct = wf.distinct;
    filed = Filed-alloc s.heap s.next v s.sandboxes wf.filed;
  }

  pub upsert-IsWellFormed : (r : Ref) → r < s.next → IsWellFormed (upsert r s)
  unfolding upsert
  upsert-IsWellFormed r h = record {
    distinct = insert-Distinct (s.heap r).name r s.sandboxes wf.distinct;
    filed = All-insert (Filed s.heap s.next) (s.heap r).name r s.sandboxes (h, refl) wf.filed;
  }

  pub remove-IsWellFormed : (name : Text) → IsWellFormed (remove name s)
  unfolding remove
  remove-IsWellFormed name = record {
    distinct = erase-Distinct name s.sandboxes wf.distinct;
    filed = All-erase (Filed s.heap s.next) name s.sandboxes wf.filed;
  }

  pub prune-IsWellFormed : (live : Text → Bool) → IsWellFormed (prune live s).1
  unfolding prune
  prune-IsWellFormed live = record {
    distinct = retain-Distinct live s.sandboxes wf.distinct;
    filed = All-retain (Filed s.heap s.next) live s.sandboxes wf.filed;
  }

  pub set_pool_size-IsWellFormed : (size : ℤ) → IsWellFormed (set_pool_size size s)
  unfolding set_pool_size
  set_pool_size-IsWellFormed size = record { distinct = wf.distinct; filed = wf.filed }

  pub record_sync_success-IsWellFormed :
      (now : Time) (mismatches : ℕ) → IsWellFormed (record_sync_success now mismatches s)
  unfolding record_sync_success
  record_sync_success-IsWellFormed now mismatches = record {
    distinct = wf.distinct;
    filed = wf.filed;
  }

  claim-IsWellFormed : (o : Option Ref) → IsWellFormed (claim s o).1
  unfolding claim
  claim-IsWellFormed none = wf
  claim-IsWellFormed (some r) =
      write-IsWellFormed r (record (s.heap r) { state = provisioning }) refl

  pub claim_idle-IsWellFormed : IsWellFormed (claim_idle s).1
  unfolding claim_idle
  claim_idle-IsWellFormed = claim-IsWellFormed (first_idle s.heap s.sandboxes)

  -- What a look-up returns is allocated and bears the name.
  pub get-Filed : (name : Text) (r : Ref) → get name s ≡ some r → Filed s.heap s.next (name, r)
  unfolding get
  get-Filed name r e = All-lookup (Filed s.heap s.next) name s.sandboxes r wf.filed e

name-reset_all : (m : Map Ref) (h : Ref → Sandbox) (q : Ref) → (reset_all m h q).name ≡ (h q).name
unfolding reset_all reset_sandbox assign
name-reset_all [] h q = refl
name-reset_all ((n, r) ∷ m) h q =
    ground (arith, name-reset_all m (assign r (reset_sandbox (h r)) h) q)

Filed-names :
    (h g : Ref → Sandbox) (next : Ref) (m : Map Ref)
    → ((q : Ref) → (g q).name ≡ (h q).name)
    → All (Filed h next) m
    → All (Filed g next) m
Filed-names h g next [] e a = tt
Filed-names h g next ((n, q) ∷ m) e a = ground (arith, e q, Filed-names h g next m e a.1)

pub reset_observations-IsWellFormed :
    (s : Store) → IsWellFormed s → IsWellFormed (reset_observations s)
unfolding reset_observations
reset_observations-IsWellFormed s wf = record {
  distinct = wf.distinct;
  filed =
      Filed-names s.heap (reset_all s.sandboxes s.heap) s.next s.sandboxes
        (name-reset_all s.sandboxes s.heap) wf.filed;
}
