-- ===== src/Store/Claim.antt =====
-- ClaimIdle: who gets a sandbox, and what a claim changes.
use gke_quick_prototype.Prelude.{
  ℕ, zero, suc, ◌+◌, ◌≡◌, ◌≢◌, ◌↔◌, refl, sym, subst, ◌∙◌, inl, inr, Option-cases, Bool, true,
  Option, none, some, List, [], ◌∷◌, arith, All, All-map, length, if◌then◌else◌,
}
use gke_quick_prototype.Prelude.Text.{Text, text_eq, text_eq_iff}
use gke_quick_prototype.Prelude.Map.{Map, lookup, Distinct}
use gke_quick_prototype.Store.{
  State, idle, provisioning, Ref, Sandbox, Store, is_idle, assign, write, get, first_idle, claim,
  claim_idle,
}
use gke_quick_prototype.Store.Invariant.{IsWellFormed, Filed, claim_idle-IsWellFormed}
use gke_quick_prototype.Store.Views.{deref, view, view-write}
use gke_quick_prototype.Store.Counts.{count, weight, count-assign}
use Prim.Native.Nat.{min}

is_idle→idle : (x : State) → is_idle x ≡ true → x ≡ idle
is_idle→idle idle e = refl
is_idle→idle _ e = cc

lookup-Filed :
    (h : Ref → Sandbox) (next : Ref) (m : Map Ref) (r : Ref)
    → Distinct m
    → All (Filed h next) m
    → first_idle h m ≡ some r
    → ((h r).state ≡ idle) × (lookup (h r).name m ≡ some r)
unfolding first_idle lookup
lookup-Filed h next [] r d a e = cc
lookup-Filed h next ((n, q) ∷ m) r d a e =
    ground
      (arith, text_eq_iff n (h r).name, is_idle→idle (h q).state, lookup-Filed h next m r d.1 a.1)

none_idle :
    (h : Ref → Sandbox) (m : Map Ref) (k : Text) (r : Ref)
    → first_idle h m ≡ none
    → lookup k m ≡ some r
    → (h r).state ≢ idle
unfolding first_idle lookup
none_idle h [] k r e l = cc
none_idle h ((n, q) ∷ m) k r e l = ground (arith, none_idle h m k r)

abbrev claimed : Sandbox → Sandbox
claimed sb = record sb { state = provisioning }

claim-fst : (s : Store) (o : Option Ref) → (claim s o).0 ≡ o
unfolding claim
claim-fst s none = refl
claim-fst s (some r) = refl

-- `claim` at a pointer that is known.
pub claim_idle-some :
    (s : Store) (r : Ref)
    → (claim_idle s).0 ≡ some r
    → (first_idle s.heap s.sandboxes ≡ some r)
      × ((claim_idle s).1 ≡ write r (record (s.heap r) { state = provisioning }) s)
unfolding claim_idle
claim_idle-some s r e =
    let f : first_idle s.heap s.sandboxes ≡ some r = sym (claim-fst s _) ∙ e in
    (f, rw f (unfold claim in refl))

pub deref-some :
    (h : Ref → Sandbox) (o : Option Ref) (sb : Sandbox)
    → deref h o ≡ some sb
    → (r : Ref) × (o ≡ some r) × (h r ≡ sb)
deref-some h none sb e = cc
deref-some h (some r) sb e = (r, refl, ground arith)

module _ (s : Store) (wf : IsWellFormed s) where
  pub claimed_entry :
      (r : Ref)
      → (claim_idle s).0 ≡ some r
      → ((s.heap r).state ≡ idle) × (get (s.heap r).name s ≡ some r)
  unfolding get
  claimed_entry r e =
      lookup-Filed s.heap s.next s.sandboxes r wf.distinct wf.filed (claim_idle-some s r e).0

  -- A successful claim from a well-formed store returns a sandbox that was idle under its name; it
  -- is provisioning afterwards, and every other name leads to what it led to before.
  pub claim_idle_lem :
      (r : Ref)
      → (claim_idle s).0 ≡ some r
      → ((s.heap r).state ≡ idle)
        × (view s (s.heap r).name ≡ some (s.heap r))
        × ((j : Text)
            → view (claim_idle s).1 j ≡ (
                if text_eq (s.heap r).name j
                then some (record (s.heap r) { state = provisioning })
                else view s j))
  claim_idle_lem r e =
      let entry = claimed_entry r e in
      (
        entry.0,
        unfold view in rw entry.1,
        λ j. rw ((claim_idle-some s r e).1) (view-write s wf r (claimed (s.heap r)) j refl entry.1),
      )

  nothing_idle :
      (name : Text) (sb : Sandbox)
      → (claim_idle s).0 ≡ none
      → view s name ≡ some sb
      → sb.state ≢ idle
  unfolding view get claim_idle
  nothing_idle name sb e v =
      let (r, l, c) = deref-some s.heap (lookup name s.sandboxes) sb v in
      rw (← c) (none_idle s.heap s.sandboxes name r (sym (claim-fst s _) ∙ e) l)

  -- A claim from a well-formed store fails exactly when no name leads to an idle sandbox.
  pub claim_idle-none :
      ((claim_idle s).0 ≡ none)
      ↔ ((name : Text) (sb : Sandbox) → view s name ≡ some sb → sb.state ≢ idle)
  claim_idle-none = (
    λ e name sb v. nothing_idle name sb e v,
    λ all. elim (Option-cases (claim_idle s).0) [
      | inl e ↦ e
      | inr (r, e) ↦
          let found = claim_idle_lem r e in absurd (all (s.heap r).name (s.heap r) found.1 found.0)
    ],
  )

  -- Each claim takes one from the idle count and adds one to the active count of Status.
  pub claim_idle-count :
      (r : Ref)
      → (claim_idle s).0 ≡ some r
      → (p : State → Bool)
      → count p (claim_idle s).1.heap (claim_idle s).1.sandboxes + weight (p idle)
        ≡ count p s.heap s.sandboxes + weight (p provisioning)
  claim_idle-count r e p =
      let entry = claimed_entry r e in
      rw (claim_idle-some s r e).1 (
        unfold write get in
        let moved =
          count-assign p s.heap s.next r (claimed (s.heap r)) s.sandboxes wf.distinct wf.filed
            entry.1 in
        rw entry.0 at moved)

abbrev granted : Option Ref → List Ref → List Ref
granted none rs = rs
granted (some r) rs = r ∷ rs

-- Callers that claim one after the other, in the order in which they get the lock.
pub claim_many : ℕ → Store → List Ref
claim_many zero s = []
claim_many (suc k) s = let rest = claim_many k (claim_idle s).1 in granted (claim_idle s).0 rest

claim_many-some :
    (k : ℕ) (s : Store) (r : Ref)
    → (claim_idle s).0 ≡ some r
    → claim_many (suc k) s ≡ r ∷ claim_many k (claim_idle s).1
unfolding claim_many
claim_many-some k s r e = rw e

claim_many-none :
    (k : ℕ) (s : Store)
    → (claim_idle s).0 ≡ none
    → claim_many (suc k) s ≡ claim_many k (claim_idle s).1
unfolding claim_many
claim_many-none k s e = rw e

abbrev pub AllDifferent : List Ref → Type 0
AllDifferent [] = Unit
AllDifferent (r ∷ rs) = All (λ q. r ≢ q) rs × AllDifferent rs

-- A cell that is idle after a claim was idle before it, and is not the claimed one.
idle_after :
    (s : Store) (r q : Ref)
    → (claim_idle s).0 ≡ some r
    → ((claim_idle s).1.heap q).state ≡ idle
    → ((s.heap q).state ≡ idle) × (r ≢ q)
idle_after s r q e i =
    let j : ((write r (claimed (s.heap r)) s).heap q).state ≡ idle =
      rw (claim_idle-some s r e).1 at i in
    unfold write assign in ground arith

count-none_idle : (h : Ref → Sandbox) (m : Map Ref) → first_idle h m ≡ none → count is_idle h m ≡ 0
unfolding first_idle count
count-none_idle h [] e = refl
count-none_idle h ((n, q) ∷ m) e = ground (arith, count-none_idle h m)

pub claim_idle-stays :
    (s : Store)
    → (claim_idle s).0 ≡ none
    → ((claim_idle s).1 ≡ s) × (count is_idle s.heap s.sandboxes ≡ 0)
unfolding claim_idle
claim_idle-stays s e =
    let f : first_idle s.heap s.sandboxes ≡ none = sym (claim-fst s _) ∙ e in
    (rw f (unfold claim in refl), count-none_idle s.heap s.sandboxes f)

-- However many callers claim from a well-formed store, each gets a sandbox of its own; all of them
-- were idle, and as many are handed out as there are callers, or idle sandboxes if those are fewer.
pub claim_many_exclusive :
    (k : ℕ) (s : Store)
    → IsWellFormed s
    → AllDifferent (claim_many k s)
      × All (λ q. (s.heap q).state ≡ idle) (claim_many k s)
      × (length (claim_many k s) ≡ min k (count is_idle s.heap s.sandboxes))
unfolding claim_many
claim_many_exclusive zero s wf = (tt, tt, omega arith)
claim_many_exclusive (suc k) s wf =
    let rest = claim_many_exclusive k (claim_idle s).1 (claim_idle-IsWellFormed s wf) in
    elim (Option-cases (claim_idle s).0) [
      | inl e ↦
          let (same, zeros) = claim_idle-stays s e in
          rw (claim_many-none k s e) (
            rest.0,
            subst (λ t. All (λ q. (t.heap q).state ≡ idle) (claim_many k (claim_idle s).1)) same
                rest.1,
            (let n : length (claim_many k (claim_idle s).1)
                    ≡ min k (count is_idle s.heap s.sandboxes) =
                  subst
                    (λ t.
                      length (claim_many k (claim_idle s).1)
                      ≡ min k (count is_idle t.heap t.sandboxes))
                    same rest.2 in
                omega arith),
          )
      | inr (r, e) ↦
          let moved = claim_idle-count s wf r e is_idle in
          rw (claim_many-some k s r e) (
            (All-map _ _ _ (λ q i. (idle_after s r q e i).1) rest.1, rest.0),
            ((claimed_entry s wf r e).0, All-map _ _ _ (λ q i. (idle_after s r q e i).0) rest.1),
            omega (arith, rest.2),
          )
    ]
