-- ===== src/Rfc3339/Civil.antt =====
-- The date of a day is the date that has that day's number.
use gke_quick_prototype.Prelude.{
  Bool-cases, inl, inr, ltb, ltb→lt, ap, subst, ℕ, zero, suc, ◌+◌, ◌-◌, ◌≤◌, ◌<◌, ◌≡◌, refl, arith,
}
use native.Mathlib.Numerals.{add-one}
use gke_quick_prototype.Lifetime.{days_in, days_before, days_before_year}
use gke_quick_prototype.Rfc3339.{Date, year_and_day, walk_months, civil}

-- Behind the last month.
twelve_months :
    (y : ℕ) → days_before y 13 + 366 + days_before_year y ≡ days_before_year (suc y) + 366
unfolding days_before days_in days_before_year
twelve_months y = ground arith

days_before_first : (y : ℕ) → days_before y 1 ≡ 0
unfolding days_before days_in
days_before_first y = refl

pub year_and_day_lem :
    (d : ℕ)
    → (days_before_year (year_and_day d).0 + (year_and_day d).1 ≡ d + 366)
      × (d + 366 < days_before_year (suc (year_and_day d).0))
unfolding year_and_day days_before_year
year_and_day_lem d = omega arith

-- `t` is a date of the year y, n days after the start of the year.
pub record IsDayOf (y n : ℕ) (t : Date) : Type 0 where
  pub year_is : t.year ≡ y
  pub month_in : (1 ≤ t.month) × (t.month ≤ 12)
  pub day_in : (1 ≤ t.day) × (t.day ≤ days_in y t.month)
  pub day_is : days_before y t.month + t.day ≡ n + 1

days_before-suc : (y m : ℕ) → days_before y (m + 1) ≡ days_before y m + days_in y m
unfolding days_before
days_before-suc y m = rw add-one refl

here-IsDayOf :
    (y m n : ℕ)
    → 1 ≤ m
    → m ≤ 12
    → n < days_in y m
    → IsDayOf y (days_before y m + n) (record { year = y; month = m; day = n + 1 })
here-IsDayOf y m n lo hi lt = record {
  year_is = refl;
  month_in = (lo, hi);
  day_in = omega arith;
  day_is = omega arith;
}

walk_months-IsDayOf :
    (y left m n : ℕ)
    → m + left ≡ 12
    → 1 ≤ m
    → days_before y m + n < days_before y 13
    → IsDayOf y (days_before y m + n) (walk_months y left m n)
unfolding walk_months
walk_months-IsDayOf y zero m n e h lt =
    let last : m ≡ 12 = omega arith in
    here-IsDayOf y m n h (omega arith)
      (omega (arith, ap (days_before y) last, ap (days_in y) last, days_before-suc y 12))
walk_months-IsDayOf y (suc left) m n e h lt = elim (Bool-cases (ltb n (days_in y m))) [
  | inl t ↦ rw t (here-IsDayOf y m n h (omega arith) (ltb→lt _ _ t))
  | inr f ↦ rw f (
      subst (λ k. IsDayOf y k (walk_months y left (m + 1) (n - days_in y m)))
        (ground (arith, f, days_before-suc y m))
        (walk_months-IsDayOf y left (m + 1) (n - days_in y m) (omega arith) (omega arith)
          (ground (arith, f, days_before-suc y m))))
]

-- Every day has a date, and the date has that day's number.
pub civil_lem : (d : ℕ) → IsDayOf (year_and_day d).0 (year_and_day d).1 (civil d)
unfolding civil
civil_lem d =
    let (place, within) = year_and_day_lem d in
    let y = (year_and_day d).0 in
    let n = (year_and_day d).1 in
    let start : days_before y 1 ≡ 0 = days_before_first y in
    subst (λ k. IsDayOf y k (walk_months y 11 1 n)) (omega (arith, start))
      (walk_months-IsDayOf y 11 1 n (omega arith) (omega arith)
        (omega (arith, start, place, within, twelve_months y)))
