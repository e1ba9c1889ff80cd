-- ===== src/Store/Order.antt =====
-- What a range over the map does not depend on: the order of the entries, and where in the heap the
-- sandboxes lie.
use gke_quick_prototype.Prelude.{
  ℕ, ◌+◌, ◌≡◌, ◌↔◌, refl, sym, ap, ◌∙◌, Bool, false, Bool-cases, inl, inr, none, some, [], ◌∷◌,
  arith,
}
use gke_quick_prototype.Prelude.Text.{Text, text_eq, text_eq_iff, text_eq_refl}
use gke_quick_prototype.Prelude.Map.{Map, lookup, erase, Distinct, lookup-erase, erase-Distinct}
use gke_quick_prototype.Clock.{Time}
use gke_quick_prototype.Store.{
  State, idle, Ref, Sandbox, Store, StatusResponse, is_idle, is_pending, tally, tally_all, status,
  status_header, since_sync, claim_idle, get,
}
use gke_quick_prototype.Store.Invariant.{IsWellFormed}
use gke_quick_prototype.Store.Views.{deref, view}
use gke_quick_prototype.Store.Counts.{weight, count, is_claimed, is_failed}
use gke_quick_prototype.Store.Claim.{deref-some, claim_idle-none}

module _ (p : State → Bool) (h : Ref → Sandbox) where
  count-erase_absent :
      (k : Text) (m : Map Ref) → lookup k m ≡ none → count p h (erase k m) ≡ count p h m
  unfolding count lookup erase
  count-erase_absent k [] e = refl
  count-erase_absent k ((j, r) ∷ m) e = ground (arith, count-erase_absent k m)

  count-erase :
      (k : Text) (r : Ref) (m : Map Ref)
      → Distinct m
      → lookup k m ≡ some r
      → count p h m ≡ weight (p (h r).state) + count p h (erase k m)
  unfolding count lookup erase
  count-erase k r [] d e = cc
  count-erase k r ((j, q) ∷ m) d e =
      ground (arith, text_eq_iff j k, count-erase_absent k m, count-erase k r m d.1)

-- Two maps, each with its heap, in which every name leads to the same.
abbrev SameLookup : (Ref → Sandbox) → Map Ref → (Ref → Sandbox) → Map Ref → Type 0
SameLookup h m g n = (j : Text) → deref h (lookup j m) ≡ deref g (lookup j n)

lookup-here : (k : Text) (r : Ref) (m : Map Ref) → lookup k ((k, r) ∷ m) ≡ some r
unfolding lookup
lookup-here k r m = rw (text_eq_refl k) refl

lookup-there :
    (k j : Text) (r : Ref) (m : Map Ref) → text_eq k j ≡ false → lookup j ((k, r) ∷ m) ≡ lookup j m
unfolding lookup
lookup-there k j r m f = rw f refl

count-empty :
    (p : State → Bool) (g : Ref → Sandbox) (n : Map Ref)
    → ((j : Text) → none ≡ deref g (lookup j n))
    → count p g n ≡ 0
unfolding count
count-empty p g [] e = refl
count-empty p g ((k, r) ∷ n) e =
    let found : none ≡ some (g r) = e k ∙ ap (deref g) (lookup-here k r n) in cc

lookup-rest :
    (h g : Ref → Sandbox) (k : Text) (r : Ref) (m n : Map Ref)
    → lookup k m ≡ none
    → SameLookup h ((k, r) ∷ m) g n
    → SameLookup h m g (erase k n)
lookup-rest h g k r m n d e j = rw (lookup-erase k j n) (elim (Bool-cases (text_eq k j)) [
  | inl t ↦ rw (t, ← (text_eq_iff k j).0 t, d) refl
  | inr f ↦ rw f (ap (deref h) (sym (lookup-there k j r m f)) ∙ e j)
])

count-SameLookup :
    (p : State → Bool) (h g : Ref → Sandbox) (m n : Map Ref)
    → Distinct m
    → Distinct n
    → SameLookup h m g n
    → count p h m ≡ count p g n
unfolding lookup count
count-SameLookup p h g [] n d d' e = sym (count-empty p g n e)
count-SameLookup p h g ((k, r) ∷ m) n d d' e =
    let here : deref g (lookup k n) ≡ some (h r) = sym (e k) ∙ ap (deref h) (lookup-here k r m) in
    let (q, found, same) = deref-some g (lookup k n) (h r) here in
    let rest =
      count-SameLookup p h g m (erase k n) d.1 (erase-Distinct k n d')
        (lookup-rest h g k r m n d.0 e) in
    rw (count-erase p g k q n d' found, same, rest) refl

-- The four counters and the total, raised by these numbers.
abbrev raised : StatusResponse → ℕ → ℕ → ℕ → ℕ → StatusResponse
raised t i n c f = record t {
  idle_count = t.idle_count + i;
  pending_count = t.pending_count + n;
  active_count = t.active_count + c;
  failed_count = t.failed_count + f;
  total = t.total + (i + n + c + f);
}

raised-tally :
    (x : State) (t : StatusResponse) (i n c f : ℕ)
    → raised (tally x t) i n c f
      ≡ raised t
          (weight (is_idle x) + i)
          (weight (is_pending x) + n)
          (weight (is_claimed x) + c)
          (weight (is_failed x) + f)
unfolding tally
raised-tally idle t i n c f = ground arith
raised-tally _ t i n c f = ground arith

raised-tally_all :
    (h : Ref → Sandbox) (m : Map Ref) (t : StatusResponse)
    → tally_all h m t
      ≡ raised t
          (count is_idle h m)
          (count is_pending h m)
          (count is_claimed h m)
          (count is_failed h m)
unfolding tally_all count
raised-tally_all h [] t = ground arith
raised-tally_all h ((k, r) ∷ m) t =
    raised-tally_all h m (tally (h r).state t) ∙ raised-tally (h r).state t _ _ _ _

-- Two stores with the same entries and the same figures of the last sync.
pub record SamePool (s t : Store) : Type 0 where
  pub views : (j : Text) → view s j ≡ view t j
  pub pool_sizes : s.pool_size ≡ t.pool_size
  pub last_syncs : s.last_sync ≡ t.last_sync
  pub mismatches : s.mismatch_count ≡ t.mismatch_count

header-SamePool :
    (now : Time) (claims scheduled : ℕ) (s t : Store)
    → SamePool s t
    → status_header now claims scheduled s ≡ status_header now claims scheduled t
unfolding status_header since_sync
header-SamePool now claims scheduled s t e = rw (e.pool_sizes, e.last_syncs, e.mismatches) refl

reversed : (s t : Store) → SamePool s t → SamePool t s
reversed s t e = record {
  views = λ j. sym (e.views j);
  pool_sizes = sym e.pool_sizes;
  last_syncs = sym e.last_syncs;
  mismatches = sym e.mismatches;
}

none-SamePool :
    (s t : Store)
    → IsWellFormed s
    → IsWellFormed t
    → SamePool s t
    → (claim_idle s).0 ≡ none
    → (claim_idle t).0 ≡ none
none-SamePool s t ws wt e n =
    (claim_idle-none t wt).1 (λ name sb v. (claim_idle-none s ws).0 n name sb (e.views name ∙ v))

-- Neither the order in which Go walks the map nor the pointers behind it show: two well-formed
-- stores in which every name leads to the same sandbox, with the same pool size, time of the last
-- sync and mismatches, give the same status answer, and a claim fails in both or in neither.
pub status-SamePool :
    (now : Time) (claims scheduled : ℕ) (s t : Store)
    → IsWellFormed s
    → IsWellFormed t
    → SamePool s t
    → (status now claims scheduled s ≡ status now claims scheduled t)
      × (((claim_idle s).0 ≡ none) ↔ ((claim_idle t).0 ≡ none))
unfolding status view get
status-SamePool now claims scheduled s t ws wt e =
    let same : (p : State → Bool) → count p s.heap s.sandboxes ≡ count p t.heap t.sandboxes = λ p.
      count-SameLookup p s.heap t.heap s.sandboxes t.sandboxes ws.distinct wt.distinct e.views in
    (
      raised-tally_all s.heap s.sandboxes (status_header now claims scheduled s)
          ∙ rw
              (
                same is_idle,
                same is_pending,
                same is_claimed,
                same is_failed,
                header-SamePool now claims scheduled s t e,
              )
              (sym (raised-tally_all t.heap t.sandboxes (status_header now claims scheduled t))),
      (none-SamePool s t ws wt e, none-SamePool t s wt ws (reversed s t e)),
    )
