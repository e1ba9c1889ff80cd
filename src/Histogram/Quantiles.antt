-- ===== src/Histogram/Quantiles.antt =====
-- The quantiles of a summary: in order, and in the bucket that the rank falls into.
use gke_quick_prototype.Prelude.{
  ℕ, ◌*◌, ◌≤◌, ◌<◌, ◌≡◌, some, List, [], ◌∷◌, ◌++◌, All, arith, subst, sym,
}
use gke_quick_prototype.Prelude.Int.{ℤ}
use gke_quick_prototype.Histogram.{
  Bucket, Histogram, quantile_loop, last_bound, histogram_quantile, extract_histogram_summary,
}
use gke_quick_prototype.Histogram.Rounding.{interpolate_lower, interpolate_upper, interpolate_mono}
use native.Mathlib.Nat.{mul-le-mul_right}

-- Buckets as the client library keeps them: the bounds grow, and so do the counts.
abbrev pub IsOrdered : ℕ → ℕ → List Bucket → Type 0
IsOrdered count bound [] = Unit
IsOrdered count bound (b ∷ rest) =
    (count ≤ b.cumulative_count)
    × (bound ≤ b.upper_bound)
    × IsOrdered b.cumulative_count b.upper_bound rest

last_bound_lower :
    (bs : List Bucket) (count bound : ℕ) → IsOrdered count bound bs → bound ≤ last_bound bound bs
unfolding last_bound
last_bound_lower [] count bound o = omega arith
last_bound_lower (b ∷ rest) count bound (c, l, o) =
    omega (arith, l, last_bound_lower rest b.cumulative_count b.upper_bound o)

abbrev looped : ℕ → ℕ → ℕ → List Bucket → ℕ
looped rank count bound bs = quantile_loop rank (last_bound bound bs) count bound bs

looped_lower :
    (bs : List Bucket) (rank count bound : ℕ)
    → IsOrdered count bound bs
    → bound ≤ looped rank count bound bs
unfolding quantile_loop last_bound
looped_lower [] rank count bound o = omega arith
looped_lower (b ∷ rest) rank count bound (c, l, o) = ground (
  arith,
  interpolate_lower count bound b c l rank,
  looped_lower rest rank b.cumulative_count b.upper_bound o,
  l,
)

looped_upper :
    (bs : List Bucket) (rank count bound : ℕ)
    → IsOrdered count bound bs
    → looped rank count bound bs ≤ last_bound bound bs
unfolding quantile_loop last_bound
looped_upper [] rank count bound o = omega arith
looped_upper (b ∷ rest) rank count bound (c, l, o) = ground (
  arith,
  interpolate_upper count bound b c l rank,
  looped_upper rest rank b.cumulative_count b.upper_bound o,
  last_bound_lower rest b.cumulative_count b.upper_bound o,
)

looped_mono :
    (bs : List Bucket) (rank higher count bound : ℕ)
    → IsOrdered count bound bs
    → rank ≤ higher
    → looped rank count bound bs ≤ looped higher count bound bs
unfolding quantile_loop last_bound
looped_mono [] rank higher count bound o h = omega arith
looped_mono (b ∷ rest) rank higher count bound (c, l, o) h = ground (
  arith,
  h,
  interpolate_mono count bound b c l rank higher h,
  interpolate_upper count bound b c l rank,
  looped_lower rest higher b.cumulative_count b.upper_bound o,
  looped_mono rest rank higher b.cumulative_count b.upper_bound o h,
)

abbrev histogram : ℕ → ℤ → List Bucket → Histogram
histogram count total bs = record { sample_count = count; sample_sum = total; buckets = bs }

-- Of two percentages the higher one has the higher quantile, or the same.
quantile_mono :
    (count : ℕ) (total : ℤ) (bs : List Bucket) (pct higher : ℕ)
    → IsOrdered 0 0 bs
    → pct ≤ higher
    → histogram_quantile pct (histogram count total bs)
      ≤ histogram_quantile higher (histogram count total bs)
unfolding histogram_quantile
quantile_mono count total [] pct higher o h = omega arith
quantile_mono count total (b ∷ rest) pct higher o h =
    ground (
      arith,
      looped_mono (b ∷ rest) (pct * count) (higher * count) 0 0 o (mul-le-mul_right count h),
    )

quantile_upper :
    (count : ℕ) (total : ℤ) (bs : List Bucket) (pct : ℕ)
    → IsOrdered 0 0 bs
    → histogram_quantile pct (histogram count total bs) ≤ last_bound 0 bs
unfolding histogram_quantile
quantile_upper count total [] pct o = omega arith
quantile_upper count total (b ∷ rest) pct o =
    ground (arith, looped_upper (b ∷ rest) (pct * count) 0 0 o)

-- Where the buckets are ordered, the median of a summary is its 95th percentile at most, that its
-- 99th, and that the bound of the last bucket.
pub extract_histogram_summary_lem :
    (hist : Histogram)
    → IsOrdered 0 0 hist.buckets
    → let u = extract_histogram_summary (some hist) in
      (u.p50 ≤ u.p95) × (u.p95 ≤ u.p99) × (u.p99 ≤ last_bound 0 hist.buckets)
unfolding extract_histogram_summary
extract_histogram_summary_lem hist o = (
  quantile_mono hist.sample_count hist.sample_sum hist.buckets 50 95 o (omega arith),
  quantile_mono hist.sample_count hist.sample_sum hist.buckets 95 99 o (omega arith),
  quantile_upper hist.sample_count hist.sample_sum hist.buckets 99 o,
)

-- A bucket that the rank does not reach.
abbrev pub Falls : ℕ → Bucket → Type 0
Falls rank b = 100 * b.cumulative_count < rank

looped_bucket :
    (before : List Bucket) (b : Bucket) (after : List Bucket) (rank last count bound : ℕ)
    → IsOrdered count bound (before ++ b ∷ after)
    → All (Falls rank) before
    → rank ≤ 100 * b.cumulative_count
    → (last_bound bound before ≤ quantile_loop rank last count bound (before ++ b ∷ after))
      × (quantile_loop rank last count bound (before ++ b ∷ after) ≤ b.upper_bound)
unfolding quantile_loop last_bound
looped_bucket [] b after rank last count bound (c, l, o) f h = (
  ground (arith, h, interpolate_lower count bound b c l rank),
  ground (arith, h, interpolate_upper count bound b c l rank),
)
looped_bucket (x ∷ before) b after rank last count bound (c, l, o) f h =
    let rest = looped_bucket before b after rank last x.cumulative_count x.upper_bound o f.1 h in
    (ground (arith, f.0, rest.0), ground (arith, f.0, rest.1))

quantile_bucket :
    (count : ℕ) (total : ℤ) (before : List Bucket) (b : Bucket) (after : List Bucket) (pct : ℕ)
    → 0 < count
    → IsOrdered 0 0 (before ++ b ∷ after)
    → All (Falls (pct * count)) before
    → pct * count ≤ 100 * b.cumulative_count
    → (last_bound 0 before ≤ histogram_quantile pct (histogram count total (before ++ b ∷ after)))
      × (histogram_quantile pct (histogram count total (before ++ b ∷ after)) ≤ b.upper_bound)
unfolding histogram_quantile
quantile_bucket count total [] b after pct h o f r =
    let inside = looped_bucket [] b after (pct * count) (last_bound 0 (b ∷ after)) 0 0 o f r in
    (ground (arith, inside.0), ground (arith, inside.1))
quantile_bucket count total (x ∷ before) b after pct h o f r =
    let inside =
      looped_bucket (x ∷ before) b after (pct * count) (last_bound 0 (x ∷ before ++ b ∷ after)) 0 0
        o f r in
    (ground (arith, inside.0), ground (arith, inside.1))

-- In a histogram with observations and ordered buckets, the quantile lies between the bounds of
-- the first bucket whose count reaches the rank.
pub histogram_quantile_bucket :
    (hist : Histogram) (pct : ℕ) (before : List Bucket) (b : Bucket) (after : List Bucket)
    → 0 < hist.sample_count
    → IsOrdered 0 0 hist.buckets
    → hist.buckets ≡ before ++ b ∷ after
    → All (Falls (pct * hist.sample_count)) before
    → pct * hist.sample_count ≤ 100 * b.cumulative_count
    → (last_bound 0 before ≤ histogram_quantile pct hist)
      × (histogram_quantile pct hist ≤ b.upper_bound)
histogram_quantile_bucket hist pct before b after h o e f r =
    subst
      (λ bs.
        (last_bound 0 before
          ≤ histogram_quantile pct (histogram hist.sample_count hist.sample_sum bs))
        × (histogram_quantile pct (histogram hist.sample_count hist.sample_sum bs) ≤ b.upper_bound))
      (sym e)
      (quantile_bucket hist.sample_count hist.sample_sum before b after pct h
        (subst (IsOrdered 0 0) e o) f r)
