-- ===== src/Examples/HistogramCases.antt =====
-- The numbers of the metrics summary.
use gke_quick_prototype.Prelude.{ℕ, ◌≤◌, ◌≡◌, refl, some, [], ◌∷◌, arith}
use gke_quick_prototype.Prelude.Int.{pos}
use gke_quick_prototype.Histogram.{
  Bucket, Histogram, histogram_quantile, quantile_loop, interpolate, round_div, last_bound,
  extract_histogram_summary, average, round_div_ℤ,
}
use gke_quick_prototype.Histogram.Quantiles.{
  IsOrdered, extract_histogram_summary_lem, histogram_quantile_bucket,
}

abbrev bucket : ℕ → ℕ → Bucket
bucket bound count = record { cumulative_count = count; upper_bound = bound }

-- Four starts, after 80, 120, 240 and 300 ms.
abbrev starts : Histogram
starts = record {
  sample_count = 4;
  sample_sum = pos 740000000;
  buckets = bucket 10 1 ∷ bucket 25 3 ∷ bucket 50 4 ∷ [];
}

starts-IsOrdered : IsOrdered 0 0 starts.buckets
starts-IsOrdered =
    (omega arith, omega arith, (omega arith, omega arith, (omega arith, omega arith, tt)))

starts_median : histogram_quantile 50 starts ≡ 18
unfolding histogram_quantile quantile_loop interpolate round_div last_bound
starts_median = refl

starts_summary :
    extract_histogram_summary (some starts)
    ≡ record { sample_total = 4; sum = pos 740; avg = pos 185; p50 = 18; p95 = 45; p99 = 49 }
unfolding extract_histogram_summary histogram_quantile quantile_loop interpolate round_div
    last_bound average round_div_ℤ
starts_summary = refl

extract_histogram_summary_lem_example :
    let u = extract_histogram_summary (some starts) in
    (u.p50 ≤ u.p95) × (u.p95 ≤ u.p99) × (u.p99 ≤ last_bound 0 starts.buckets)
extract_histogram_summary_lem_example = extract_histogram_summary_lem starts starts-IsOrdered

histogram_quantile_bucket_example :
    (last_bound 0 (bucket 10 1 ∷ []) ≤ histogram_quantile 50 starts)
    × (histogram_quantile 50 starts ≤ 25)
histogram_quantile_bucket_example =
    histogram_quantile_bucket starts 50 (bucket 10 1 ∷ []) (bucket 25 3) (bucket 50 4 ∷ [])
      (omega arith) starts-IsOrdered refl (omega arith, tt) (omega arith)
