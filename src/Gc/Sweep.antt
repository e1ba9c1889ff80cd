-- ===== src/Gc/Sweep.antt =====
-- What a run of the collector leaves of the store, and what it asks of the API server.
use gke_quick_prototype.Prelude.{
  ◌≡◌, refl, ◌∙◌, Bool, true, false, ◌&&◌, ◌||◌, Option, none, some, List, [], ◌∷◌, map, arith, All,
  inl, inr, Bool-cases, if◌then◌else◌,
}
use gke_quick_prototype.Prelude.Text.{Text, text_eq, text_eq_iff}
use gke_quick_prototype.Prelude.Map.{Map, lookup, Distinct}
use gke_quick_prototype.Store.{Ref, Sandbox, remove, list, get}
use gke_quick_prototype.Store.Invariant.{IsWellFormed, Filed, remove-IsWellFormed}
use gke_quick_prototype.Store.Views.{deref, view, view-remove}
use gke_quick_prototype.Controller.{Reason, Controller, called}
use gke_quick_prototype.Gc.{GcEnv, gc_reason, collect, gc_each, gc}

abbrev pub is_some : Option Reason → Bool
is_some none = false
is_some (some r) = true

-- The collector wants the sandbox gone, and the API server deletes its pod.
abbrev pub is_collected : GcEnv → Sandbox → Bool
is_collected env sb = is_some (gc_reason env.now sb) && env.deletes sb.name

pub heap-collect :
    (env : GcEnv) (sb : Sandbox) (o : Option Reason) (c : Controller)
    → (collect env sb o c).store.heap ≡ c.store.heap
unfolding collect remove called
heap-collect env sb none c = refl
heap-collect env sb (some r) c = ground arith

view-collect :
    (env : GcEnv) (sb : Sandbox) (o : Option Reason) (c : Controller) (j : Text)
    → view (collect env sb o c).store j
      ≡ (if (is_some o && env.deletes sb.name) && text_eq sb.name j then none else view c.store j)
unfolding collect called
view-collect env sb none c j = refl
view-collect env sb (some r) c j = ground (arith, view-remove c.store sb.name j)

collect-IsWellFormed :
    (env : GcEnv) (sb : Sandbox) (o : Option Reason) (c : Controller)
    → IsWellFormed c.store
    → IsWellFormed (collect env sb o c).store
unfolding collect called
collect-IsWellFormed env sb none c wf = wf
collect-IsWellFormed env sb (some r) c wf = elim (Bool-cases (env.deletes sb.name)) [
  | inl e ↦ rw (e, collect) (remove-IsWellFormed c.store wf sb.name)
  | inr e ↦ rw (e, collect) wf
]

-- Whether some entry of the name is collected.
unfoldable pub hit : GcEnv → (Ref → Sandbox) → Map Ref → Text → Bool
hit env h [] j = false
hit env h ((n, r) ∷ m) j = (is_collected env (h r) && text_eq (h r).name j) || hit env h m j

abbrev pub pointers : Map Ref → List Ref
pointers = map (λ e. e.1)

view-gc_each :
    (env : GcEnv) (m : Map Ref) (c : Controller) (j : Text)
    → view (gc_each env (pointers m) c).store j
      ≡ (if hit env c.store.heap m j then none else view c.store j)
unfolding gc_each hit
view-gc_each env [] c j = refl
view-gc_each env ((n, r) ∷ m) c j =
    let sb = c.store.heap r in
    let o = gc_reason env.now sb in
    view-gc_each env m (collect env sb o c) j
    ∙ rw (heap-collect env sb o c) (rw (view-collect env sb o c j) (ground arith))

pub hit-absent :
    (env : GcEnv) (h : Ref → Sandbox) (next : Ref) (m : Map Ref) (j : Text)
    → All (Filed h next) m
    → lookup j m ≡ none
    → hit env h m j ≡ false
unfolding hit lookup
hit-absent env h next [] j a e = refl
hit-absent env h next ((n, r) ∷ m) j a e =
    ground (arith, text_eq_iff n j, hit-absent env h next m j a.1)

pub hit-found :
    (env : GcEnv) (h : Ref → Sandbox) (next : Ref) (m : Map Ref) (j : Text) (q : Ref)
    → All (Filed h next) m
    → Distinct m
    → lookup j m ≡ some q
    → hit env h m j ≡ is_collected env (h q)
unfolding hit lookup
hit-found env h next [] j q a d e = cc
hit-found env h next ((n, r) ∷ m) j q a d e = elim (Bool-cases (text_eq n j)) [
  | inl t ↦ ground (arith, text_eq_iff n j, hit-absent env h next m j a.1)
  | inr t ↦ ground (arith, text_eq_iff n j, hit-found env h next m j q a.1 d.1)
]

abbrev pub surviving : GcEnv → Option Sandbox → Option Sandbox
surviving env none = none
surviving env (some sb) = if is_collected env sb then none else some sb

surviving-lookup :
    (env : GcEnv) (h : Ref → Sandbox) (next : Ref) (m : Map Ref) (j : Text) (o : Option Ref)
    → All (Filed h next) m
    → Distinct m
    → lookup j m ≡ o
    → (if hit env h m j then none else deref h o) ≡ surviving env (deref h o)
surviving-lookup env h next m j none a d e = ground (arith, hit-absent env h next m j a e)
surviving-lookup env h next m j (some q) a d e = ground (arith, hit-found env h next m j q a d e)

-- On a well-formed store a run of the collector takes exactly the entries for which it finds a
-- reason and whose pod the API server deletes; every other name leads to what it led to before.
pub gc_lem :
    (env : GcEnv) (c : Controller) (j : Text)
    → IsWellFormed c.store
    → view (gc env c).store j ≡ surviving env (view c.store j)
unfolding gc list view get
gc_lem env c j wf =
    view-gc_each env c.store.sandboxes c j
    ∙ surviving-lookup env c.store.heap c.store.next c.store.sandboxes j
        (lookup j c.store.sandboxes) wf.filed wf.distinct refl

gc_each-IsWellFormed :
    (env : GcEnv) (rs : List Ref) (c : Controller)
    → IsWellFormed c.store
    → IsWellFormed (gc_each env rs c).store
unfolding gc_each
gc_each-IsWellFormed env [] c wf = wf
gc_each-IsWellFormed env (r ∷ rs) c wf =
    gc_each-IsWellFormed env rs _
      (collect-IsWellFormed env (c.store.heap r) (gc_reason env.now (c.store.heap r)) c wf)

pub gc-IsWellFormed :
    (env : GcEnv) (c : Controller) → IsWellFormed c.store → IsWellFormed (gc env c).store
unfolding gc
gc-IsWellFormed env c wf = gc_each-IsWellFormed env (list c.store) c wf
