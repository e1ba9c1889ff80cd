-- ===== src/Provision/Durations.antt =====
-- Lifetimes that are written as one decimal number with a unit.
use gke_quick_prototype.Prelude.{
  ℕ, zero, suc, ◌+◌, ◌*◌, ◌^◌, ◌/◌, ◌≡◌, ◌≢◌, refl, ◌∙◌, true, false, Bool-cases, inl, inr, Option,
  none, some, [], ◌∷◌, ◌++◌, ◌==◌, ltb, leb, length, All, All-append, arith, if◌then◌else◌,
}
use gke_quick_prototype.Prelude.Int.{pos}
use gke_quick_prototype.Prelude.Text.{Text, Lacks, codes, text_eq, is_digit}
use gke_quick_prototype.Clock.{second, minute, hour, add}
use gke_quick_prototype.Lifetime.{
  number, number_after, leading_digits, leading_fraction, leading_unit, unit_of, term_value,
  duration_term, sum_terms, unsigned, forwards, parse_duration,
}
use gke_quick_prototype.Provision.{
  ok, err, byte_at, duration_problem, ProvisionEnv, has_date_shape, parse_as_duration, parse_expiry,
  cap_expiry, expiry_of,
}

pub data TimeUnit : Type 0 where
  nanoseconds microseconds milliseconds seconds minutes hours : TimeUnit

abbrev pub unit_name : TimeUnit → Text
unit_name nanoseconds = codes "ns"
unit_name microseconds = codes "us"
unit_name milliseconds = codes "ms"
unit_name seconds = codes "s"
unit_name minutes = codes "m"
unit_name hours = codes "h"

abbrev pub unit_length : TimeUnit → ℕ
unit_length nanoseconds = 1
unit_length microseconds = 1_000
unit_length milliseconds = 1_000_000
unit_length seconds = second
unit_length minutes = minute
unit_length hours = hour

abbrev pub AllDigits : Text → Type 0
AllDigits s = All (λ c. is_digit c ≡ true) s

-- The digits end where the unit's name begins.
digits-append :
    (ds : Text) (u : TimeUnit)
    → AllDigits ds
    → leading_digits (ds ++ unit_name u) ≡ (ds, unit_name u)
unfolding leading_digits
digits-append [] nanoseconds a = refl
digits-append [] _ a = refl
digits-append (d ∷ ds) u a = rw (digits-append ds u a.1) (rw a.0 refl)

plus_nothing : (n k : ℕ) → n + 0 * k / 10 ^ 0 ≡ n
plus_nothing n k = omega arith

term_value-whole :
    (ds : Text) (k : ℕ)
    → term_value ds [] k ≡ (if leb (number ds * k) (2 ^ 63) then some (number ds * k) else none)
unfolding term_value number_after
term_value-whole ds k = rw (plus_nothing (number ds * k) k) (ground arith)

unit_of-name : (u : TimeUnit) → unit_of (unit_name u) ≡ some (unit_length u)
unfolding unit_of text_eq
unit_of-name nanoseconds = refl
unit_of-name _ = refl

unit_ends : (u : TimeUnit) → leading_unit (unit_name u) ≡ (unit_name u, [])
unfolding leading_unit
unit_ends nanoseconds = refl
unit_ends _ = refl

no_fraction : (u : TimeUnit) → leading_fraction (unit_name u) ≡ ([], unit_name u)
unfolding leading_fraction
no_fraction nanoseconds = refl
no_fraction _ = refl

abbrev single_term : Text → ℕ → Option (ℕ × Text)
single_term ds k = if leb (number ds * k) (2 ^ 63) then some (number ds * k, []) else none

duration_term_lem :
    (d : ℕ) (ds : Text) (u : TimeUnit)
    → AllDigits (d ∷ ds)
    → duration_term (d ∷ ds ++ unit_name u) ≡ single_term (d ∷ ds) (unit_length u)
unfolding duration_term
duration_term_lem d ds u a = rw (digits-append (d ∷ ds) u a) (
    rw (no_fraction u) (
      rw (unit_ends u)
        (rw (unit_of-name u) (rw (term_value-whole (d ∷ ds) (unit_length u)) (ground arith)))))

not_zero : (d : ℕ) (ds : Text) (u : TimeUnit) → text_eq (d ∷ ds ++ unit_name u) (codes "0") ≡ false
unfolding text_eq
not_zero d [] nanoseconds = ground arith
not_zero d [] _ = ground arith
not_zero d (e ∷ ds) u = ground arith

-- A digit is no sign.
unsigned_digit :
    (d : ℕ) (s : Text) → is_digit d ≡ true → parse_duration (d ∷ s) ≡ forwards (unsigned (d ∷ s))
unfolding parse_duration
unsigned_digit d s h = ground (arith, h)

not_unlimited : (d : ℕ) (s : Text) → is_digit d ≡ true → text_eq (d ∷ s) (codes "unlimited") ≡ false
unfolding text_eq
not_unlimited d s h = ground (arith, h)

byte_at-Lacks : (i : ℕ) (s : Text) → Lacks b'-' s → (byte_at i s == b'-') ≡ false
byte_at-Lacks zero [] a = refl
byte_at-Lacks (suc i) [] a = refl
byte_at-Lacks zero (c ∷ s) a = ground (arith, a.0)
byte_at-Lacks (suc i) (c ∷ s) a = byte_at-Lacks i s a.1

digits-Lacks : (s : Text) → AllDigits s → Lacks b'-' s
digits-Lacks [] a = tt
digits-Lacks (c ∷ s) a = (ground (arith, a.0), digits-Lacks s a.1)

name-Lacks : (u : TimeUnit) → Lacks b'-' (unit_name u)
name-Lacks nanoseconds = omega arith
name-Lacks _ = omega arith

no_date : (s : Text) → Lacks b'-' s → has_date_shape s ≡ false
unfolding has_date_shape
no_date s a = ground (arith, byte_at-Lacks 4 s a)

module _ (d : ℕ) (ds : Text) (u : TimeUnit) (digits : AllDigits (d ∷ ds)) where
  abbrev total : ℕ
  total = number (d ∷ ds) * unit_length u

  sum_terms_lem :
      (fuel : ℕ)
      → sum_terms (suc fuel) (d ∷ ds ++ unit_name u) 0
        ≡ (if leb total (2 ^ 63) then some total else none)
  unfolding sum_terms
  sum_terms_lem fuel =
      rw (duration_term_lem d ds u digits, sum_terms)
        (elim (Bool-cases (leb total (2 ^ 63))) [
          | inl t ↦ rw t (ground (arith, t))
          | inr f ↦ rw f refl
        ])

  parse_duration_lem :
      parse_duration (d ∷ ds ++ unit_name u)
      ≡ (if ltb total (2 ^ 63) then some (pos total) else none)
  unfolding unsigned
  parse_duration_lem =
      unsigned_digit d (ds ++ unit_name u) digits.0
      ∙ rw (not_zero d ds u) (rw (sum_terms_lem (length (ds ++ unit_name u))) (ground arith))

  -- A lifetime that is a decimal number directly followed by a unit, from ns to h, lasts that many
  -- units from the parser's reading of the clock, cut to two hours; if it does not fit a Duration,
  -- it is refused.
  pub expiry_of-number :
      (env : ProvisionEnv)
      → expiry_of env (d ∷ ds ++ unit_name u) ≡ (
          if ltb total (2 ^ 63)
          then ok (some (cap_expiry env.cap_now (add env.parse_now (pos total))))
          else err (duration_problem env (d ∷ ds ++ unit_name u)))
  unfolding expiry_of parse_expiry parse_as_duration
  expiry_of-number env =
      let lacking =
        All-append (λ c. c ≢ b'-') (d ∷ ds) (unit_name u) (digits-Lacks (d ∷ ds) digits)
          (name-Lacks u) in
      rw (not_unlimited d (ds ++ unit_name u) digits.0) (
        rw (no_date (d ∷ ds ++ unit_name u) lacking) (
          rw parse_duration_lem
            (elim (Bool-cases (ltb total (2 ^ 63))) [ inl t ↦ rw t refl | inr f ↦ rw f refl ])))
