-- ===== src/Examples/StoreCases.antt =====
-- The store.
use gke_quick_prototype.Prelude.{
  List, [], ◌∷◌, arith, ◌+◌, ◌≡◌, ◌≢◌, ◌↔◌, refl, none, some, All, length, if◌then◌else◌,
}
use gke_quick_prototype.Prelude.Int.{pos}
use gke_quick_prototype.Prelude.Text.{Text, codes, text_eq, text_eq_iff}
use gke_quick_prototype.Store.{
  get, idle, provisioning, Sandbox, Store, is_idle, is_pending, status, claim_idle, claim,
  first_idle, reset_observations,
}
use gke_quick_prototype.Store.Views.{view}
use gke_quick_prototype.Store.Claim.{
  AllDifferent, claim_many, claim_idle_lem, claim_idle-none, claim_many_exclusive,
}
use gke_quick_prototype.Store.Counts.{count, is_claimed, is_failed, status_counts}
use gke_quick_prototype.Store.Reset.{reset_view, reset_observations_lem}
use gke_quick_prototype.Examples.Setup.{pool, pool-IsWellFormed, name_a, name_b}
use Prim.Native.Nat.{min}
use gke_quick_prototype.Prelude.Map.{lookup}
use gke_quick_prototype.Store.Invariant.{IsWellFormed}
use gke_quick_prototype.Store.Order.{SamePool, status-SamePool}
use gke_quick_prototype.Store.Refines.{
  Method, claims, files, resets, removes, prunes, call_all, AllowedRun, call_all-AllowedRun,
}

pool_claim : (claim_idle pool).0 ≡ some 0
unfolding claim_idle claim first_idle
pool_claim = refl

claim_many_exclusive_example :
    AllDifferent (claim_many 3 pool)
    × All (λ q. (pool.heap q).state ≡ idle) (claim_many 3 pool)
    × (length (claim_many 3 pool) ≡ min 3 (count is_idle pool.heap pool.sandboxes))
claim_many_exclusive_example = claim_many_exclusive 3 pool pool-IsWellFormed

claim_idle_lem_example :
    ((pool.heap 0).state ≡ idle)
    × (view pool (pool.heap 0).name ≡ some (pool.heap 0))
    × ((j : Text)
        → view (claim_idle pool).1 j ≡ (
            if text_eq (pool.heap 0).name j
            then some (record (pool.heap 0) { state = provisioning })
            else view pool j))
claim_idle_lem_example = claim_idle_lem pool pool-IsWellFormed 0 pool_claim

some_claim :
    ((claim_idle pool).0 ≡ none)
    ↔ ((name : Text) (sb : Sandbox) → view pool name ≡ some sb → sb.state ≢ idle)
some_claim = claim_idle-none pool pool-IsWellFormed

status_counts_example :
    let u = status (pos 20) 1 2 pool in
    (u.idle_count ≡ count is_idle pool.heap pool.sandboxes)
    × (u.pending_count ≡ count is_pending pool.heap pool.sandboxes)
    × (u.active_count ≡ count is_claimed pool.heap pool.sandboxes)
    × (u.failed_count ≡ count is_failed pool.heap pool.sandboxes)
    × (u.total ≡ length pool.sandboxes)
    × (u.idle_count + u.pending_count + u.active_count + u.failed_count ≡ u.total)
status_counts_example = status_counts (pos 20) 1 2 pool

reset_observations_lem_example :
    view (reset_observations pool) name_a ≡ reset_view (view pool name_a)
reset_observations_lem_example = reset_observations_lem pool name_a

-- The pool with its entries in the other order.
abbrev turned : Store
turned = record pool { sandboxes = (name_b, 1) ∷ (name_a, 0) ∷ [] }

turned-IsWellFormed : IsWellFormed turned
unfolding lookup text_eq
turned-IsWellFormed = record {
  distinct = (refl, (refl, tt));
  filed = ((omega arith, refl), ((omega arith, refl), tt));
}

pool-turned : SamePool pool turned
unfolding view get lookup
pool-turned = record {
  views = λ j. ground (arith, text_eq_iff name_a j, text_eq_iff name_b j);
  pool_sizes = refl;
  last_syncs = refl;
  mismatches = refl;
}

status-SamePool_example :
    (status (pos 9) 0 0 pool ≡ status (pos 9) 0 0 turned)
    × (((claim_idle pool).0 ≡ none) ↔ ((claim_idle turned).0 ≡ none))
status-SamePool_example =
    status-SamePool (pos 9) 0 0 pool turned pool-IsWellFormed turned-IsWellFormed pool-turned

-- A claim, a filing, a reset, a removal, a prune, and a claim that finds nothing.
abbrev some_calls : List Method
some_calls =
    claims
    ∷ files (record (pool.heap 0) { name = codes "z" })
    ∷ resets
    ∷ removes name_b
    ∷ prunes (λ j. text_eq name_a j)
    ∷ claims
    ∷ []

call_all-AllowedRun_example : AllowedRun some_calls (view pool) (view (call_all some_calls pool))
call_all-AllowedRun_example = call_all-AllowedRun some_calls pool pool-IsWellFormed
