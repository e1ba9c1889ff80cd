-- ===== src/Store/Counts.antt =====
-- Status counts the entries of the map by their state.
use gke_quick_prototype.Prelude.{
  ℕ, ◌+◌, ◌≡◌, refl, Bool, true, false, none, some, [], ◌∷◌, arith, All, length,
}
use gke_quick_prototype.Prelude.Map.{Map, lookup, Distinct}
use gke_quick_prototype.Prelude.Text.{text_eq_iff}
use gke_quick_prototype.Clock.{Time}
use gke_quick_prototype.Store.{
  State, idle, provisioning, active, failed, Ref, Sandbox, Store, StatusResponse, is_idle,
  is_pending, assign, tally, tally_all, status, status_header,
}
use gke_quick_prototype.Store.Invariant.{Filed}

abbrev pub weight : Bool → ℕ
weight true = 1
weight false = 0

-- How many entries have a state that passes the test.
unfoldable pub count : (State → Bool) → (Ref → Sandbox) → Map Ref → ℕ
count p h [] = 0
count p h ((n, r) ∷ m) = weight (p (h r).state) + count p h m

-- active and provisioning, which Status counts together
abbrev pub is_claimed : State → Bool
is_claimed active = true
is_claimed provisioning = true
is_claimed _ = false

abbrev pub is_failed : State → Bool
is_failed failed = true
is_failed _ = false

-- The four fields of the answer, against counts of the map.
abbrev Counted : (Ref → Sandbox) → Map Ref → StatusResponse → StatusResponse → Type 0
Counted h m t u =
    (u.idle_count ≡ t.idle_count + count is_idle h m)
    × (u.pending_count ≡ t.pending_count + count is_pending h m)
    × (u.active_count ≡ t.active_count + count is_claimed h m)
    × (u.failed_count ≡ t.failed_count + count is_failed h m)
    × (u.total ≡ t.total + length m)

Counted-step :
    (x : State) (t : StatusResponse)
    → ((tally x t).idle_count ≡ t.idle_count + weight (is_idle x))
      × ((tally x t).pending_count ≡ t.pending_count + weight (is_pending x))
      × ((tally x t).active_count ≡ t.active_count + weight (is_claimed x))
      × ((tally x t).failed_count ≡ t.failed_count + weight (is_failed x))
      × ((tally x t).total ≡ t.total + 1)
unfolding tally
Counted-step idle t = omega arith
Counted-step _ t = omega arith

pub tally_all-Counted :
    (h : Ref → Sandbox) (m : Map Ref) (t : StatusResponse) → Counted h m t (tally_all h m t)
unfolding tally_all count
tally_all-Counted h [] t = omega arith
tally_all-Counted h ((n, r) ∷ m) t =
    let one = Counted-step (h r).state t in
    let rest = tally_all-Counted h m (tally (h r).state t) in omega arith

weight_partition :
    (x : State)
    → weight (is_idle x) + weight (is_pending x) + weight (is_claimed x) + weight (is_failed x) ≡ 1
weight_partition idle = refl
weight_partition _ = refl

pub count_partition :
    (h : Ref → Sandbox) (m : Map Ref)
    → count is_idle h m + count is_pending h m + count is_claimed h m + count is_failed h m
      ≡ length m
unfolding count
count_partition h [] = refl
count_partition h ((n, r) ∷ m) = omega (arith, weight_partition (h r).state, count_partition h m)

-- The counts of a status answer are the counts of the map: idle, pending, active together with
-- provisioning, failed, and all entries. The four add up to the total.
pub status_counts :
    (now : Time) (claims scheduled : ℕ) (s : Store)
    → let u = status now claims scheduled s in
      (u.idle_count ≡ count is_idle s.heap s.sandboxes)
      × (u.pending_count ≡ count is_pending s.heap s.sandboxes)
      × (u.active_count ≡ count is_claimed s.heap s.sandboxes)
      × (u.failed_count ≡ count is_failed s.heap s.sandboxes)
      × (u.total ≡ length s.sandboxes)
      × (u.idle_count + u.pending_count + u.active_count + u.failed_count ≡ u.total)
unfolding status status_header
status_counts now claims scheduled s =
    let c = tally_all-Counted s.heap s.sandboxes (status_header now claims scheduled s) in
    let parts = count_partition s.heap s.sandboxes in omega arith

-- Entries whose name is not that of the cell do not see a write to it.
count-assign_absent :
    (p : State → Bool) (h : Ref → Sandbox) (next r : Ref) (v : Sandbox) (m : Map Ref)
    → All (Filed h next) m
    → lookup (h r).name m ≡ none
    → count p (assign r v h) m ≡ count p h m
unfolding count assign lookup
count-assign_absent p h next r v [] a e = refl
count-assign_absent p h next r v ((n, q) ∷ m) a e =
    ground (arith, text_eq_iff n (h r).name, count-assign_absent p h next r v m a.1)

-- A write through a filed pointer moves one entry from its old state to the new one.
pub count-assign :
    (p : State → Bool) (h : Ref → Sandbox) (next r : Ref) (v : Sandbox) (m : Map Ref)
    → Distinct m
    → All (Filed h next) m
    → lookup (h r).name m ≡ some r
    → count p (assign r v h) m + weight (p (h r).state) ≡ count p h m + weight (p v.state)
unfolding count assign lookup
count-assign p h next r v [] d a e = cc
count-assign p h next r v ((n, q) ∷ m) d a e = ground (
  arith,
  text_eq_iff n (h r).name,
  count-assign p h next r v m d.1 a.1,
  count-assign_absent p h next r v m a.1,
)
