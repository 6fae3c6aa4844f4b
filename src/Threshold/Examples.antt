-- ===== src/Threshold/Examples.antt =====
-- Runs of the thresholds of crates/pengu-mesh-core/src/threshold.rs.
use pengu_mesh.Prelude.{
  ℕ, ◌+◌, ◌*◌, ◌/◌, ◌≤◌, ◌<◌, ◌≡◌, refl, ◌↔◌, arith, true, leb, ltb, none, some, List, [], ◌∷◌,
  codes, length, count,
}
use pengu_mesh.Threshold.{
  PerformanceThreshold, ThresholdResult, sort_samples, percentile, evaluate_threshold,
}
use pengu_mesh.Threshold.NearestRank.{percentile_nearest_rank}
use pengu_mesh.Threshold.Budgets.{WithinAll, evaluate_threshold_lem}

-- The rank without rounding in floating point.
abbrev exact_rank : ℕ → ℕ → ℕ
exact_rank p n = (p * n + 99) / 100

abbrev samples : List ℕ
samples = 30 ∷ 10 ∷ 20 ∷ 50 ∷ []

abbrev budget : PerformanceThreshold
budget = record {
  name = codes "load";
  metric = codes "page_load";
  max_ms = 40;
  p50_ms = some 20;
  p95_ms = none;
  p99_ms = some 60;
}

median : percentile exact_rank (sort_samples samples) 50 ≡ some 20
unfolding percentile sort_samples
median = refl

percentile_nearest_rank_example :
    (v : ℕ) × (percentile exact_rank (sort_samples samples) 50 ≡ some v)
    × (2 ≤ count (λ s. leb s v) samples)
    × (count (λ s. ltb s v) samples < 2)
percentile_nearest_rank_example =
    percentile_nearest_rank exact_rank samples 50 (omega arith) (omega arith)

evaluate_threshold_lem_example :
    (r : ThresholdResult) × (evaluate_threshold exact_rank budget samples ≡ some r)
    × (r.samples_evaluated ≡ length samples)
    × ((r.passed ≡ true) ↔ WithinAll exact_rank budget samples)
evaluate_threshold_lem_example = evaluate_threshold_lem exact_rank budget samples
