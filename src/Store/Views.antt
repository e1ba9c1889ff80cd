-- ===== src/Store/Views.antt =====
-- The abstract store: a finite map from names to sandboxes, with the heap and the pointers
-- forgotten. Each method is an operation on that map.
use gke_quick_prototype.Prelude.{◌<◌, ◌≡◌, refl, Bool, Option, none, some, arith, if◌then◌else◌}
use gke_quick_prototype.Prelude.Text.{Text, text_eq, text_eq_iff}
use gke_quick_prototype.Prelude.Map.{lookup, lookup-insert, lookup-erase, lookup-retain}
use gke_quick_prototype.Store.{
  Ref, Sandbox, Store, assign, write, alloc, upsert, remove, prune, get,
}
use gke_quick_prototype.Store.Invariant.{IsWellFormed, get-Filed}

abbrev pub deref : (Ref → Sandbox) → Option Ref → Option Sandbox
deref h none = none
deref h (some r) = some (h r)

-- What the store knows under a name.
unfoldable pub view : Store → Text → Option Sandbox
view s name = deref s.heap (get name s)

module _ (s : Store) where
  pub view-upsert :
      (r : Ref) (j : Text)
      → view (upsert r s) j ≡ (if text_eq (s.heap r).name j then some (s.heap r) else view s j)
  unfolding view upsert get
  view-upsert r j = ground (arith, lookup-insert (s.heap r).name j r s.sandboxes)

  pub view-remove :
      (name j : Text) → view (remove name s) j ≡ (if text_eq name j then none else view s j)
  unfolding view remove get
  view-remove name j = ground (arith, lookup-erase name j s.sandboxes)

  pub view-prune :
      (live : Text → Bool) (j : Text)
      → view (prune live s).1 j ≡ (if live j then view s j else none)
  unfolding view prune get
  view-prune live j = ground (arith, lookup-retain live j s.sandboxes)

deref-alloc :
    (h : Ref → Sandbox) (next : Ref) (v : Sandbox) (o : Option Ref)
    → ((r : Ref) → o ≡ some r → r < next)
    → deref (assign next v h) o ≡ deref h o
unfolding assign
deref-alloc h next v none b = refl
deref-alloc h next v (some r) b = ground (arith, b r refl)

deref-assign :
    (h : Ref → Sandbox) (r : Ref) (v : Sandbox) (j : Text) (o : Option Ref)
    → v.name ≡ (h r).name
    → ((q : Ref) → o ≡ some q → (h q).name ≡ j)
    → (v.name ≡ j → o ≡ some r)
    → deref (assign r v h) o ≡ (if text_eq v.name j then some v else deref h o)
unfolding assign
deref-assign h r v j none e b g = ground (arith, text_eq_iff v.name j)
deref-assign h r v j (some q) e b g = ground (arith, text_eq_iff v.name j, b q refl)

module _ (s : Store) (wf : IsWellFormed s) where
  -- Allocation is invisible until the pointer is filed.
  pub view-alloc : (v : Sandbox) (j : Text) → view (alloc v s) j ≡ view s j
  unfolding view alloc assign get
  view-alloc v j =
      deref-alloc s.heap s.next v (lookup j s.sandboxes) λ r e. (get-Filed s wf j r e).0

  -- A write through a filed pointer changes what its name leads to, and nothing else.
  pub view-write :
      (r : Ref) (v : Sandbox) (j : Text)
      → v.name ≡ (s.heap r).name
      → get v.name s ≡ some r
      → view (write r v s) j ≡ (if text_eq v.name j then some v else view s j)
  unfolding view write assign get
  view-write r v j e g =
      deref-assign s.heap r v j (lookup j s.sandboxes) e (λ q p. (get-Filed s wf j q p).1)
        λ p. rw (← p) g
