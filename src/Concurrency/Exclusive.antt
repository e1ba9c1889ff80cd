-- ===== src/Concurrency/Exclusive.antt =====
-- What holds however the goroutines interleave.
use gke_quick_prototype.Prelude.{
  suc, ◌<◌, ◌≡◌, ◌≢◌, refl, sym, ap, subst, ◌∙◌, some, List, [], ◌∷◌, ◌++◌, arith, All, All-map,
  All-without,
}
use gke_quick_prototype.Prelude.Int.{ℤ}
use gke_quick_prototype.Prelude.Map.{Map}
use gke_quick_prototype.Store.{
  idle, provisioning, Ref, Sandbox, Store, new_store, assign, write, alloc, upsert, remove,
  claim_idle, set_pool_size, reset_sandbox, reset_all, reset_observations, record_sync_success,
  prune,
}
use gke_quick_prototype.Store.Invariant.{
  IsWellFormed, get-Filed, write-IsWellFormed, alloc-IsWellFormed, upsert-IsWellFormed,
  remove-IsWellFormed, prune-IsWellFormed, set_pool_size-IsWellFormed, claim_idle-IsWellFormed,
  record_sync_success-IsWellFormed, reset_observations-IsWellFormed,
}
use gke_quick_prototype.Store.Claim.{AllDifferent, claim_idle-some, claimed_entry}
use gke_quick_prototype.Provision.{claimed_sandbox}
use gke_quick_prototype.Concurrency.{
  System, init, Answer, refused, accepted, answered_sandbox, Step, claims, answers, files, syncs,
  prunes, records, resizes, removes, resets, Reach, start, later,
}

-- A claimed sandbox whose patch is not answered yet.
abbrev pub Held : Store → Ref → Type 0
Held s r = (r < s.next) × ((s.heap r).state ≡ provisioning)

pub record IsExclusive (u : System) : Type 0 where
  pub well_formed : IsWellFormed u.store
  pub held : All (Held u.store) u.in_flight
  pub different : AllDifferent u.in_flight
  pub allocated : All (λ r. r < u.store.next) u.filing

AllDifferent-without :
    (before : List Ref) (r : Ref) (after : List Ref)
    → AllDifferent (before ++ r ∷ after)
    → All (λ q. r ≢ q) (before ++ after) × AllDifferent (before ++ after)
AllDifferent-without [] r after d = d
AllDifferent-without (x ∷ before) r after d =
    let rest = AllDifferent-without before r after d.1 in
    let (apart, others) = All-without (λ q. x ≢ q) before r after d.0 in
    (((λ e. apart (sym e)), rest.0), (others, rest.1))

-- A write elsewhere leaves what is held alone.
Held-write :
    (s : Store) (r : Ref) (v : Sandbox) (l : List Ref)
    → All (λ q. r ≢ q) l
    → All (Held s) l
    → All (Held (write r v s)) l
unfolding write assign
Held-write s r v [] d h = tt
Held-write s r v (q ∷ l) d h = ground (arith, Held-write s r v l d.1 h.1)

Held-alloc : (s : Store) (v : Sandbox) (l : List Ref) → All (Held s) l → All (Held (alloc v s)) l
unfolding alloc assign
Held-alloc s v [] h = tt
Held-alloc s v (q ∷ l) h = ground (arith, Held-alloc s v l h.1)

state-reset_all :
    (m : Map Ref) (h : Ref → Sandbox) (q : Ref) → (reset_all m h q).state ≡ (h q).state
unfolding reset_all reset_sandbox assign
state-reset_all [] h q = refl
state-reset_all ((n, r) ∷ m) h q =
    ground (arith, state-reset_all m (assign r (reset_sandbox (h r)) h) q)

Held-reset : (s : Store) (l : List Ref) → All (Held s) l → All (Held (reset_observations s)) l
unfolding reset_observations
Held-reset s l =
    All-map (Held s) (Held (reset_observations s)) l
      λ q h. (h.0, state-reset_all s.sandboxes s.heap q ∙ h.1)

-- The pointer that a claim returns is that of an idle sandbox, so it is not held.
free_of_Held :
    (s : Store) (r : Ref) (l : List Ref)
    → (s.heap r).state ≡ idle
    → All (Held s) l
    → All (λ q. r ≢ q) l
free_of_Held s r l i =
    All-map (Held s) (λ q. r ≢ q) l λ q h e. ground (arith, ap (λ p. (s.heap p).state) e)

Held-claimed :
    (s : Store) (r : Ref)
    → r < s.next
    → Held (write r (record (s.heap r) { state = provisioning }) s) r
unfolding write assign
Held-claimed s r b = (b, ground arith)

name-answered : (a : Answer) (sb : Sandbox) → (answered_sandbox a sb).name ≡ sb.name
unfolding answered_sandbox claimed_sandbox
name-answered refused sb = refl
name-answered (accepted env lifetime expires_at) sb = refl

module _ (u : System) (x : IsExclusive u) where
  IsExclusive-claim :
      (r : Ref)
      → (claim_idle u.store).0 ≡ some r
      → IsExclusive (record {
        store = (claim_idle u.store).1;
        in_flight = r ∷ u.in_flight;
        filing = u.filing;
      })
  IsExclusive-claim r e =
      let (was_idle, filed) = claimed_entry u.store x.well_formed r e in
      let b = (get-Filed u.store x.well_formed (u.store.heap r).name r filed).0 in
      let free = free_of_Held u.store r u.in_flight was_idle x.held in
      let v = record (u.store.heap r) { state = provisioning } in
      let after : write r v u.store ≡ (claim_idle u.store).1 =
        sym (claim_idle-some u.store r e).1 in
      record {
        well_formed = claim_idle-IsWellFormed u.store x.well_formed;
        held =
            subst (λ s. All (Held s) (r ∷ u.in_flight)) after
              (Held-claimed u.store r b, Held-write u.store r v u.in_flight free x.held);
        different = (free, x.different);
        allocated = subst (λ s. All (λ q. q < s.next) u.filing) after (unfold write in x.allocated);
      }

  IsExclusive-answer :
      (a : Answer) (before : List Ref) (r : Ref) (after : List Ref)
      → u.in_flight ≡ before ++ r ∷ after
      → IsExclusive (record {
        store = write r (answered_sandbox a (u.store.heap r)) u.store;
        in_flight = before ++ after;
        filing = r ∷ u.filing;
      })
  IsExclusive-answer a before r after e =
      let (mine, others) =
        All-without (Held u.store) before r after (subst (All (Held u.store)) e x.held) in
      let (apart, different) =
        AllDifferent-without before r after (subst AllDifferent e x.different) in
      let v = answered_sandbox a (u.store.heap r) in
      record {
        well_formed = write-IsWellFormed u.store x.well_formed r v (name-answered a _);
        held = Held-write u.store r v (before ++ after) apart others;
        different = different;
        allocated = unfold write in (mine.0, x.allocated);
      }

  IsExclusive-file :
      (before : List Ref) (r : Ref) (after : List Ref)
      → u.filing ≡ before ++ r ∷ after
      → IsExclusive
          (record { store = upsert r u.store; in_flight = u.in_flight; filing = before ++ after })
  unfolding upsert
  IsExclusive-file before r after e =
      let (b, others) =
        All-without (λ q. q < u.store.next) before r after
          (subst (All (λ q. q < u.store.next)) e x.allocated) in
      record {
        well_formed = upsert-IsWellFormed u.store x.well_formed r b;
        held = x.held;
        different = x.different;
        allocated = others;
      }

  -- A step that touches no cell of the heap.
  IsExclusive-map :
      (s : Store)
      → IsWellFormed s
      → s.heap ≡ u.store.heap
      → s.next ≡ u.store.next
      → IsExclusive (record u { store = s })
  IsExclusive-map s wf h n = record {
    well_formed = wf;
    held = All-map (Held u.store) (Held s) u.in_flight (λ q k. (rw n k.0, rw h k.1)) x.held;
    different = x.different;
    allocated = rw n x.allocated;
  }

  IsExclusive-sync :
      (v : Sandbox) → IsExclusive (record u { store = upsert u.store.next (alloc v u.store) })
  unfolding upsert
  IsExclusive-sync v = record {
    well_formed =
        upsert-IsWellFormed (alloc v u.store) (alloc-IsWellFormed u.store x.well_formed v)
          u.store.next (unfold alloc in omega arith);
    held = Held-alloc u.store v u.in_flight x.held;
    different = x.different;
    allocated =
        unfold alloc in
        All-map (λ q. q < u.store.next) (λ q. q < suc u.store.next) u.filing
          (λ q b. omega (arith, b)) x.allocated;
  }

  IsExclusive-reset : IsExclusive (record u { store = reset_observations u.store })
  IsExclusive-reset = record {
    well_formed = reset_observations-IsWellFormed u.store x.well_formed;
    held = Held-reset u.store u.in_flight x.held;
    different = x.different;
    allocated = unfold reset_observations in x.allocated;
  }

Step-IsExclusive : {u v : System} → IsExclusive u → Step u v → IsExclusive v
Step-IsExclusive {u} x (claims r e) = IsExclusive-claim u x r e
Step-IsExclusive {u} x (answers a before r after e) = IsExclusive-answer u x a before r after e
Step-IsExclusive {u} x (files before r after e) = IsExclusive-file u x before r after e
Step-IsExclusive {u} x (syncs env pod existing) = IsExclusive-sync u x _
Step-IsExclusive {u} x (prunes live) =
    IsExclusive-map u x (prune live u.store).1 (prune-IsWellFormed u.store x.well_formed live)
      (unfold prune in refl) (unfold prune in refl)
Step-IsExclusive {u} x (records now mismatches) =
    IsExclusive-map u x (record_sync_success now mismatches u.store)
      (record_sync_success-IsWellFormed u.store x.well_formed now mismatches)
      (unfold record_sync_success in refl) (unfold record_sync_success in refl)
Step-IsExclusive {u} x (resizes size) =
    IsExclusive-map u x (set_pool_size size u.store)
      (set_pool_size-IsWellFormed u.store x.well_formed size) (unfold set_pool_size in refl)
      (unfold set_pool_size in refl)
Step-IsExclusive {u} x (removes name) =
    IsExclusive-map u x (remove name u.store) (remove-IsWellFormed u.store x.well_formed name)
      (unfold remove in refl) (unfold remove in refl)
Step-IsExclusive {u} x resets = IsExclusive-reset u x

init-IsExclusive : (heap : Ref → Sandbox) (size : ℤ) → IsExclusive (init heap size)
unfolding new_store
init-IsExclusive heap size = record {
  well_formed = record { distinct = tt; filed = tt };
  held = tt;
  different = tt;
  allocated = tt;
}

-- However the goroutines interleave from an empty store on, the store stays well formed, and the
-- requests that wait for the answer to their patch hold different sandboxes, all provisioning.
pub Reach-IsExclusive :
    {heap : Ref → Sandbox} {size : ℤ} {u : System} → Reach heap size u → IsExclusive u
Reach-IsExclusive {heap} {size} start = init-IsExclusive heap size
Reach-IsExclusive (later r st) = Step-IsExclusive (Reach-IsExclusive r) st

-- In any state that the goroutines reach, ClaimIdle never returns a sandbox object that a request
-- still holds while it waits for the answer to its patch.
pub claim_idle-apart :
    {heap : Ref → Sandbox} {size : ℤ} {u : System} (r : Ref)
    → Reach heap size u
    → (claim_idle u.store).0 ≡ some r
    → All (λ q. r ≢ q) u.in_flight
claim_idle-apart {u = u} r reached e =
    let x = Reach-IsExclusive reached in
    free_of_Held u.store r u.in_flight (claimed_entry u.store x.well_formed r e).0 x.held
