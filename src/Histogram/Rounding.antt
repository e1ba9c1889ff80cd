-- ===== src/Histogram/Rounding.antt =====
-- Rounding and interpolation.
use gke_quick_prototype.Prelude.{ℕ, zero, suc, ◌+◌, ◌-◌, ◌*◌, ◌/◌, ◌≤◌, ◌<◌, ◌≡◌, arith}
use gke_quick_prototype.Histogram.{Bucket, round_div, interpolate}
use native.Mathlib.Nat.{
  mul-sub, mul-le-mul_left, mul-le-mul_right, le-div_iff_mul-le, div-lt_iff_lt-mul,
}

double-mul : (a d : ℕ) → a * (2 * d) ≡ 2 * (d * a)
double-mul a d = omega arith

div-le_div : (a b d : ℕ) → zero < d → a ≤ b → a / d ≤ b / d
div-le_div a b d h l =
    (le-div_iff_mul-le {k = d} {x = a / d} {y = b} h).1
      (omega (arith, l, (le-div_iff_mul-le {k = d} {x = a / d} {y = a} h).0 (omega arith)))

-- A quotient between two whole numbers stays between them.
pub round_div_lower : (a n d : ℕ) → 0 < d → d * a ≤ n → a ≤ round_div n d
unfolding round_div
round_div_lower a n d h l =
    (le-div_iff_mul-le {k = 2 * d} {x = a} {y = 2 * n + d} (omega (arith, h))).1
      (omega (arith, double-mul a d, l))

pub round_div_upper : (b n d : ℕ) → 0 < d → n ≤ d * b → round_div n d ≤ b
unfolding round_div
round_div_upper b n d h l =
    let below : (2 * n + d) / (2 * d) < suc b =
      (div-lt_iff_lt-mul {k = 2 * d} {x = 2 * n + d} {y = suc b} (omega (arith, h))).1
        (omega (arith, double-mul (suc b) d, l, h)) in
    omega (arith, below)

pub round_div_mono : (n m d : ℕ) → 0 < d → n ≤ m → round_div n d ≤ round_div m d
unfolding round_div
round_div_mono n m d h l =
    div-le_div (2 * n + d) (2 * m + d) (2 * d) (omega (arith, h)) (omega (arith, l))

scaled_lower : (d a x w : ℕ) → d * a ≤ d * a + x * w
scaled_lower d a x w = omega arith

scaled_upper : (d a b x : ℕ) → a ≤ b → x ≤ d → d * a + x * (b - a) ≤ d * b
scaled_upper d a b x l h = omega (
  arith,
  mul-le-mul_right {m = x} {n = d} (b - a) h,
  mul-sub d b a,
  mul-le-mul_left {m = a} {n = b} d l,
)

module _ (prev_count prev_bound : ℕ) (b : Bucket) (counts : prev_count ≤ b.cumulative_count)
    (bounds : prev_bound ≤ b.upper_bound) where
  -- An interpolated value lies in the bucket, and grows with the rank.
  pub interpolate_lower : (rank : ℕ) → prev_bound ≤ interpolate rank prev_count prev_bound b
  unfolding interpolate
  interpolate_lower rank = ground (
    arith,
    bounds,
    round_div_lower prev_bound
        (100 * (b.cumulative_count - prev_count) * prev_bound
          + (rank - 100 * prev_count) * (b.upper_bound - prev_bound))
        (100 * (b.cumulative_count - prev_count)),
  )

  pub interpolate_upper :
      (rank : ℕ)
      → rank ≤ 100 * b.cumulative_count
      → interpolate rank prev_count prev_bound b ≤ b.upper_bound
  unfolding interpolate
  interpolate_upper rank h = ground (
    arith,
    round_div_upper b.upper_bound
        (100 * (b.cumulative_count - prev_count) * prev_bound
          + (rank - 100 * prev_count) * (b.upper_bound - prev_bound))
        (100 * (b.cumulative_count - prev_count)),
    scaled_upper (100 * (b.cumulative_count - prev_count)) prev_bound b.upper_bound
        (rank - 100 * prev_count) bounds,
  )

  pub interpolate_mono :
      (rank higher : ℕ)
      → rank ≤ higher
      → interpolate rank prev_count prev_bound b ≤ interpolate higher prev_count prev_bound b
  unfolding interpolate
  interpolate_mono rank higher h = ground (
    arith,
    round_div_mono
        (100 * (b.cumulative_count - prev_count) * prev_bound
          + (rank - 100 * prev_count) * (b.upper_bound - prev_bound))
        (100 * (b.cumulative_count - prev_count) * prev_bound
          + (higher - 100 * prev_count) * (b.upper_bound - prev_bound))
        (100 * (b.cumulative_count - prev_count)),
    mul-le-mul_right {m = rank - 100 * prev_count} {n = higher - 100 * prev_count}
        (b.upper_bound - prev_bound) (omega (arith, h)),
  )
