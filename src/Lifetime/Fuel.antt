-- ===== src/Lifetime/Fuel.antt =====
-- The loop of ParseDuration ends: the length of its text is fuel enough.
use gke_quick_prototype.Prelude.{
  ℕ, zero, suc, ◌+◌, ◌≤◌, ◌<◌, ◌≡◌, refl, Bool-cases, Option-cases, inl, inr, Option, none, some,
  [], ◌∷◌, ◌==◌, ◌||◌, length, arith,
}
use gke_quick_prototype.Prelude.Text.{Text, is_digit}
use gke_quick_prototype.Lifetime.{
  leading_digits, leading_fraction, leading_unit, term_value, and_rest, valued, duration_term,
  sum_terms,
}

length-leading_digits :
    (s : Text) → length (leading_digits s).0 + length (leading_digits s).1 ≡ length s
unfolding leading_digits
length-leading_digits [] = refl
length-leading_digits (c ∷ s) = elim (Bool-cases (is_digit c)) [
  | inl t ↦ rw t (omega (arith, length-leading_digits s))
  | inr f ↦ rw f (omega arith)
]

length-leading_fraction :
    (s : Text) → length (leading_fraction s).0 + length (leading_fraction s).1 ≤ length s
unfolding leading_fraction
length-leading_fraction [] = omega arith
length-leading_fraction (c ∷ s) = elim (Bool-cases (c == b'.')) [
  | inl t ↦ rw t (omega (arith, length-leading_digits s))
  | inr f ↦ rw f (omega arith)
]

length-leading_unit : (s : Text) → length (leading_unit s).1 ≤ length s
unfolding leading_unit
length-leading_unit [] = omega arith
length-leading_unit (c ∷ s) = elim (Bool-cases (c == b'.' || is_digit c)) [
  | inl t ↦ rw t (omega arith)
  | inr f ↦ rw f (omega (arith, length-leading_unit s))
]

and_rest-some :
    (rest : Text) (o : Option ℕ) (n : ℕ) (s : Text) → and_rest rest o ≡ some (n, s) → s ≡ rest
and_rest-some rest none n s e = cc
and_rest-some rest (some m) n s e = ground arith

valued-some :
    (whole part rest : Text) (o : Option ℕ) (n : ℕ) (s : Text)
    → valued whole part rest o ≡ some (n, s)
    → s ≡ rest
valued-some whole part rest none n s e = cc
valued-some whole part rest (some u) n s e = and_rest-some rest (term_value whole part u) n s e

-- A term takes something off the text.
duration_term-shorter :
    (s : Text) (n : ℕ) (rest : Text) → duration_term s ≡ some (n, rest) → length rest < length s
unfolding duration_term
duration_term-shorter s n rest e =
    let s' = (leading_digits s).1 in
    let s'' = (leading_fraction s').1 in
    let taken = length (leading_digits s).0 + length (leading_fraction s').0 in
    elim (Bool-cases (taken == 0)) [
      | inl t ↦ let gone : ◌≡◌ {A = Option (ℕ × Text)} none (some (n, rest)) = rw t at e in cc
      | inr f ↦
          let some_digit : 0 < taken = ground (arith, f) in
          let left : rest ≡ (leading_unit s'').1 = valued-some _ _ _ _ n rest (rw f at e) in
          rw left (
            omega (
              arith,
              some_digit,
              length-leading_digits s,
              length-leading_fraction s',
              length-leading_unit s'',
            ))
    ]

-- More fuel than the text is long changes nothing.
sum_terms_stable :
    (n k : ℕ) (s : Text) (d : ℕ) → length s ≤ n → length s ≤ k → sum_terms n s d ≡ sum_terms k s d
unfolding sum_terms
sum_terms_stable zero k [] d p q = refl
sum_terms_stable zero k (c ∷ s) d p q = absurd (omega arith)
sum_terms_stable (suc n) zero [] d p q = refl
sum_terms_stable (suc n) zero (c ∷ s) d p q = absurd (omega arith)
sum_terms_stable (suc n) (suc k) [] d p q = refl
sum_terms_stable (suc n) (suc k) (c ∷ s) d p q = elim (Option-cases (duration_term (c ∷ s))) [
  | inl e ↦ rw (e, sum_terms) refl
  | inr ((m, rest), e) ↦
      let shorter = duration_term-shorter (c ∷ s) m rest e in
      rw (e, sum_terms)
        (rw (sum_terms_stable n k rest (d + m) (omega (arith, shorter)) (omega (arith, shorter)))
          refl)
]
