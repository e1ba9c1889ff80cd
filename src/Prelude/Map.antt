-- ===== src/Prelude/Map.antt =====
-- Go maps with string keys, as association lists. A range over a map visits the entries in the
-- order of the list; Go leaves that order open, and the theorems hold for every list.
use gke_quick_prototype.Prelude.Tests.{if◌then◌else◌, Bool-cases}
use gke_quick_prototype.Prelude.Lists.{All, length}
use gke_quick_prototype.Prelude.Text.{Text, text_eq, text_eq_iff}
use Prim.Native.Nat.{◌≤◌}
use mathlib.Core.Path.{◌≡◌, refl}
use mathlib.Core.Logic.{inl, inr}
use mathlib.Core.Bool.{Bool}
use mathlib.Core.Option.{Option, none, some}
use mathlib.Core.List.{List, [], ◌∷◌}
use native.Mathlib.Omega.{arith}

abbrev pub Map {ℓ} : Type ℓ → Type ℓ
Map V = List (Text × V)

module _ {ℓ} {V : Type ℓ} where
  unfoldable pub lookup : Text → Map V → Option V
  lookup k [] = none
  lookup k ((j, v) ∷ m) = if text_eq j k then some v else lookup k m

  -- m[k] = v
  unfoldable pub insert : Text → V → Map V → Map V
  insert k v [] = (k, v) ∷ []
  insert k v ((j, w) ∷ m) = if text_eq j k then (k, v) ∷ m else (j, w) ∷ insert k v m

  -- delete(m, k)
  unfoldable pub erase : Text → Map V → Map V
  erase k [] = []
  erase k ((j, v) ∷ m) = let rest = erase k m in if text_eq j k then rest else (j, v) ∷ rest

  -- The entries whose key passes the test.
  unfoldable pub retain : (Text → Bool) → Map V → Map V
  retain p [] = []
  retain p ((j, v) ∷ m) = let rest = retain p m in if p j then (j, v) ∷ rest else rest

  -- A key stands in at most one entry.
  abbrev pub Distinct : Map V → Type ℓ
  Distinct [] = Unit
  Distinct ((k, v) ∷ m) = (lookup k m ≡ none) × Distinct m

  pub lookup-insert :
      (k j : Text) (v : V) (m : Map V)
      → lookup j (insert k v m) ≡ (if text_eq k j then some v else lookup j m)
  unfolding lookup insert
  lookup-insert k j v [] = refl
  lookup-insert k j v ((i, w) ∷ m) =
      ground (arith, text_eq_iff k j, text_eq_iff i k, text_eq_iff i j, lookup-insert k j v m)

  pub lookup-erase :
      (k j : Text) (m : Map V) → lookup j (erase k m) ≡ (if text_eq k j then none else lookup j m)
  unfolding lookup erase
  lookup-erase k j [] = ground arith
  lookup-erase k j ((i, w) ∷ m) =
      ground (arith, text_eq_iff k j, text_eq_iff i k, text_eq_iff i j, lookup-erase k j m)

  pub lookup-retain :
      (p : Text → Bool) (j : Text) (m : Map V)
      → lookup j (retain p m) ≡ (if p j then lookup j m else none)
  unfolding lookup retain
  lookup-retain p j [] = ground arith
  lookup-retain p j ((i, w) ∷ m) = elim (Bool-cases (text_eq i j)) [
    | inl e ↦ rw ((text_eq_iff i j).0 e) (ground (arith, lookup-retain p j m))
    | inr e ↦ ground (arith, lookup-retain p j m)
  ]

  pub insert-Distinct : (k : Text) (v : V) (m : Map V) → Distinct m → Distinct (insert k v m)
  unfolding lookup insert
  insert-Distinct k v [] d = (refl, tt)
  insert-Distinct k v ((j, w) ∷ m) d =
      ground
        (arith, text_eq_iff j k, text_eq_iff k j, lookup-insert k j v m, insert-Distinct k v m d.1)

  pub erase-Distinct : (k : Text) (m : Map V) → Distinct m → Distinct (erase k m)
  unfolding lookup erase
  erase-Distinct k [] d = tt
  erase-Distinct k ((j, w) ∷ m) d =
      ground (arith, text_eq_iff j k, lookup-erase k j m, erase-Distinct k m d.1)

  pub retain-Distinct : (p : Text → Bool) (m : Map V) → Distinct m → Distinct (retain p m)
  unfolding lookup retain
  retain-Distinct p [] d = tt
  retain-Distinct p ((j, w) ∷ m) d = ground (arith, lookup-retain p j m, retain-Distinct p m d.1)

  pub length-retain-le : (p : Text → Bool) (m : Map V) → length (retain p m) ≤ length m
  unfolding retain
  length-retain-le p [] = omega arith
  length-retain-le p ((j, w) ∷ m) = ground (arith, length-retain-le p m)

module _ {ℓ κ} {V : Type ℓ} (P : Text × V → Type κ) where
  pub All-insert : (k : Text) (v : V) (m : Map V) → P (k, v) → All P m → All P (insert k v m)
  unfolding insert
  All-insert k v [] h a = (h, tt)
  All-insert k v ((j, w) ∷ m) h a = elim (Bool-cases (text_eq j k)) [
    | inl e ↦ rw e (h, a.1)
    | inr e ↦ rw e (a.0, All-insert k v m h a.1)
  ]

  pub All-erase : (k : Text) (m : Map V) → All P m → All P (erase k m)
  unfolding erase
  All-erase k [] a = tt
  All-erase k ((j, w) ∷ m) a = elim (Bool-cases (text_eq j k)) [
    | inl e ↦ rw e (All-erase k m a.1)
    | inr e ↦ rw e (a.0, All-erase k m a.1)
  ]

  pub All-retain : (p : Text → Bool) (m : Map V) → All P m → All P (retain p m)
  unfolding retain
  All-retain p [] a = tt
  All-retain p ((j, w) ∷ m) a = elim (Bool-cases (p j)) [
    | inl e ↦ rw e (a.0, All-retain p m a.1)
    | inr e ↦ rw e (All-retain p m a.1)
  ]

  -- What holds of every entry holds of the one that is looked up.
  pub All-lookup : (k : Text) (m : Map V) (v : V) → All P m → lookup k m ≡ some v → P (k, v)
  unfolding lookup
  All-lookup k [] v a e = cc
  All-lookup k ((j, w) ∷ m) v a e = elim (Bool-cases (text_eq j k)) [
    | inl t ↦
        let jk : j ≡ k = (text_eq_iff j k).0 t in
        let wv : w ≡ v = ground arith in rw (← jk, ← wv) a.0
    | inr t ↦ All-lookup k m v a.1 (ground arith)
  ]
