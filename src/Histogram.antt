-- ===== src/Histogram.antt =====
-- app/controller/metrics.go: `extractHistogramSummary` and `histogramQuantile`, which give the
-- numbers of GET /api/metrics/summary (app/controller/handlers.go, `handleMetricsSummary`). The
-- source works in float64, here the arithmetic is exact. A bound of a bucket, and a quantile, is a
-- number of hundredths of a second, as all bounds of `schedulingBuckets` are; a sum is in
-- nanoseconds, a rounded sum in milliseconds, and a rank in hundredths of an observation.
pub mod Rounding
pub mod Quantiles
use gke_quick_prototype.Prelude.{
  ℕ, suc, ◌+◌, ◌-◌, ◌*◌, ◌/◌, ◌==◌, Option, none, some, List, [], ◌∷◌, leb, if◌then◌else◌,
}
use gke_quick_prototype.Prelude.Int.{ℤ, pos, negsuc, sub_ℕ}

-- What the client library writes out: the buckets with a finite bound.
pub record Bucket : Type 0 where
  pub cumulative_count : ℕ
  pub upper_bound : ℕ

pub record Histogram : Type 0 where
  pub sample_count : ℕ
  pub sample_sum : ℤ
  pub buckets : List Bucket

pub record HistogramSummary : Type 0 where
  pub sample_total : ℕ
  pub sum : ℤ
  pub avg : ℤ
  pub p50 : ℕ
  pub p95 : ℕ
  pub p99 : ℕ

-- schedulingBuckets
abbrev pub scheduling_buckets : List ℕ
scheduling_buckets = 10 ∷ 25 ∷ 50 ∷ 100 ∷ 250 ∷ 500 ∷ 1000 ∷ 1500 ∷ 3000 ∷ 6000 ∷ []

-- math.Round(n / d): to the nearest, and half away from zero
unfoldable pub round_div : ℕ → ℕ → ℕ
round_div n d = (2 * n + d) / (2 * d)

unfoldable pub round_div_ℤ : ℤ → ℕ → ℤ
round_div_ℤ (pos n) d = pos (round_div n d)
round_div_ℤ (negsuc n) d = sub_ℕ 0 (round_div (suc n) d)

-- The body of the `if`, at the first bucket whose count reaches the rank.
unfoldable pub interpolate : ℕ → ℕ → ℕ → Bucket → ℕ
interpolate rank prev_count prev_bound b =
    let bucket_count = b.cumulative_count - prev_count in
    if bucket_count == 0
    then b.upper_bound
    else round_div
        (100 * bucket_count * prev_bound + (rank - 100 * prev_count) * (b.upper_bound - prev_bound))
        (100 * bucket_count)

-- The loop; `last` is what the line behind it returns.
unfoldable pub quantile_loop : ℕ → ℕ → ℕ → ℕ → List Bucket → ℕ
quantile_loop rank last prev_count prev_bound [] = last
quantile_loop rank last prev_count prev_bound (b ∷ rest) =
    let later = quantile_loop rank last b.cumulative_count b.upper_bound rest in
    if leb rank (100 * b.cumulative_count) then interpolate rank prev_count prev_bound b else later

-- buckets[len(buckets)-1].GetUpperBound()
unfoldable pub last_bound : ℕ → List Bucket → ℕ
last_bound bound [] = bound
last_bound bound (b ∷ rest) = last_bound b.upper_bound rest

-- The quantile q is pct / 100.
unfoldable pub histogram_quantile : ℕ → Histogram → ℕ
histogram_quantile pct hist = elim hist.buckets [
  | [] ↦ 0
  | b ∷ rest ↦
      if hist.sample_count == 0
      then 0
      else quantile_loop (pct * hist.sample_count) (last_bound 0 (b ∷ rest)) 0 0 (b ∷ rest)
]

abbrev pub millisecond : ℕ
millisecond = 1000000

unfoldable pub average : Histogram → ℤ
average hist =
    if hist.sample_count == 0
    then pos 0
    else round_div_ℤ hist.sample_sum (hist.sample_count * millisecond)

-- The histogram is `none` if it cannot be written out.
unfoldable pub extract_histogram_summary : Option Histogram → HistogramSummary
extract_histogram_summary none = record {
  sample_total = 0;
  sum = pos 0;
  avg = pos 0;
  p50 = 0;
  p95 = 0;
  p99 = 0;
}
extract_histogram_summary (some hist) = record {
  sample_total = hist.sample_count;
  sum = round_div_ℤ hist.sample_sum millisecond;
  avg = average hist;
  p50 = histogram_quantile 50 hist;
  p95 = histogram_quantile 95 hist;
  p99 = histogram_quantile 99 hist;
}

-- The body of the answer: the summaries of the two histograms.
unfoldable pub handle_metrics_summary :
    Option Histogram → Option Histogram → HistogramSummary × HistogramSummary
handle_metrics_summary schedule claim_to_ready =
    (extract_histogram_summary schedule, extract_histogram_summary claim_to_ready)
