-- ===== src/Gc/Calls.antt =====
-- The deletions that the collector asks the API server for.
use gke_quick_prototype.Prelude.{
  Bool, true, false, ◌&&◌, ◌||◌, ◌≡◌, refl, sym, ap, ◌∙◌, Option, none, some, List, All, [], ◌∷◌,
  ◌++◌, append_assoc, append-nil, arith, inl, inr, Bool-cases, if◌then◌else◌,
}
use gke_quick_prototype.Prelude.Text.{Text, text_eq, text_eq_refl}
use gke_quick_prototype.Prelude.Map.{Map, lookup, Distinct}
use gke_quick_prototype.Clock.{Time}
use gke_quick_prototype.Store.{Ref, Sandbox, list, get}
use gke_quick_prototype.Store.Invariant.{IsWellFormed, Filed}
use gke_quick_prototype.Store.Views.{deref, view}
use gke_quick_prototype.Kube.{Call, delete_pod}
use gke_quick_prototype.Controller.{Reason, Controller, called}
use gke_quick_prototype.Gc.{GcEnv, gc_reason, collect, gc_each, gc}
use gke_quick_prototype.Gc.Sweep.{is_some, pointers, heap-collect, hit, hit-absent, hit-found}

-- The calls for the entries at these cells.
unfoldable pub deletions : GcEnv → (Ref → Sandbox) → List Ref → List Call
deletions env h [] = []
deletions env h (r ∷ rs) =
    let rest = deletions env h rs in
    if is_some (gc_reason env.now (h r)) then delete_pod env.namespace (h r).name 0 ∷ rest else rest

-- Whether there is a call to delete this pod.
pub asks_for : Text → Text → List Call → Bool
asks_for ns j [] = false
asks_for ns j (delete_pod ns' name grace ∷ calls) =
    (text_eq ns' ns && text_eq name j) || asks_for ns j calls
asks_for ns j (_ ∷ calls) = asks_for ns j calls

-- Whether the collector has a reason against what a name leads to.
abbrev pub is_unwanted : Time → Option Sandbox → Bool
is_unwanted now none = false
is_unwanted now (some sb) = is_some (gc_reason now sb)

calls-collect :
    (env : GcEnv) (sb : Sandbox) (o : Option Reason) (c : Controller)
    → (collect env sb o c).calls
      ≡ c.calls ++ (if is_some o then delete_pod env.namespace sb.name 0 ∷ [] else [])
unfolding collect called
calls-collect env sb none c = sym (append-nil c.calls)
calls-collect env sb (some r) c = ground arith

calls-gc_each :
    (env : GcEnv) (rs : List Ref) (c : Controller)
    → (gc_each env rs c).calls ≡ c.calls ++ deletions env c.store.heap rs
unfolding gc_each deletions
calls-gc_each env [] c = sym (append-nil c.calls)
calls-gc_each env (r ∷ rs) c =
    let sb = c.store.heap r in
    let o = gc_reason env.now sb in
    calls-gc_each env rs (collect env sb o c)
    ∙ rw (heap-collect env sb o c, calls-collect env sb o c)
        (elim (Bool-cases (is_some o)) [
          | inl e ↦ rw e (
              append_assoc c.calls (delete_pod env.namespace sb.name 0 ∷ [])
                (deletions env c.store.heap rs))
          | inr e ↦ rw e (ap (λ l. l ++ deletions env c.store.heap rs) (append-nil c.calls))
        ])

-- The collector with every deletion granted.
abbrev granting : GcEnv → GcEnv
granting env = record env { deletes = λ n. true }

asks_for-deletions :
    (env : GcEnv) (h : Ref → Sandbox) (m : Map Ref) (j : Text)
    → asks_for env.namespace j (deletions env h (pointers m)) ≡ hit (granting env) h m j
unfolding deletions asks_for hit
asks_for-deletions env h [] j = refl
asks_for-deletions env h ((n, r) ∷ m) j =
    ground (arith, asks_for-deletions env h m j, text_eq_refl env.namespace)

and_true : (b : Bool) → (b && true) ≡ b
and_true true = refl
and_true false = refl

hit-unwanted :
    (env : GcEnv) (h : Ref → Sandbox) (next : Ref) (m : Map Ref) (j : Text) (o : Option Ref)
    → All (Filed h next) m
    → Distinct m
    → lookup j m ≡ o
    → hit (granting env) h m j ≡ is_unwanted env.now (deref h o)
hit-unwanted env h next m j none a d e = hit-absent (granting env) h next m j a e
hit-unwanted env h next m j (some q) a d e =
    hit-found (granting env) h next m j q a d e ∙ and_true (is_some (gc_reason env.now (h q)))

-- A run of the collector on a well-formed store adds calls to those made before, and among them is
-- one to delete the pod of a name exactly if the name leads to a sandbox against which the collector
-- has a reason.
pub calls-gc :
    (env : GcEnv) (c : Controller)
    → IsWellFormed c.store
    → (added : List Call) × ((gc env c).calls ≡ c.calls ++ added)
      × ((j : Text) → asks_for env.namespace j added ≡ is_unwanted env.now (view c.store j))
unfolding gc list view get
calls-gc env c wf = (
  deletions env c.store.heap (pointers c.store.sandboxes),
  calls-gc_each env (pointers c.store.sandboxes) c,
  λ j.
      asks_for-deletions env c.store.heap c.store.sandboxes j
      ∙ hit-unwanted env c.store.heap c.store.next c.store.sandboxes j (lookup j c.store.sandboxes)
          wf.filed wf.distinct refl,
)
