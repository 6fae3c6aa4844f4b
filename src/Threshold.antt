-- ===== src/Threshold.antt =====
-- crates/pengu-mesh-core/src/threshold.rs: latency budgets against samples. The rank
-- `(p * len as f64).ceil() as usize`, a product in floating point, is the parameter `rank` of the
-- percentage and the length. An outcome is `none` where the code panics.
pub mod Sorting
pub mod NearestRank
pub mod Budgets
mod Examples
use pengu_mesh.Prelude.{
  ℕ, ◌-◌, min, Bool, true, Option, none, some, List, [], ◌∷◌, ◌++◌, map, leb, ltb, if◌then◌else◌,
  Text, text_eq, codes, length, get_elem?, is_empty, lookup,
}

pub record PerformanceThreshold : Type 0 where
  pub name : Text
  pub metric : Text
  pub max_ms : ℕ
  pub p50_ms : Option ℕ
  pub p95_ms : Option ℕ
  pub p99_ms : Option ℕ

pub record ThresholdViolation : Type 0 where
  pub threshold_name : Text
  pub metric : Text
  pub expected_ms : ℕ
  pub actual_ms : ℕ
  pub percentile_label : Text

pub record ThresholdResult : Type 0 where
  pub threshold_name : Text
  pub metric : Text
  pub passed : Bool
  pub violations : List ThresholdViolation
  pub samples_evaluated : ℕ

-- `sort_unstable`, which on numbers is any sort.
unfoldable pub insert_sample : ℕ → List ℕ → List ℕ
insert_sample x [] = x ∷ []
insert_sample x (y ∷ ys) = let rest = insert_sample x ys in if leb x y then x ∷ y ∷ ys else y ∷ rest

unfoldable pub sort_samples : List ℕ → List ℕ
unfolding insert_sample
sort_samples [] = []
sort_samples (x ∷ xs) = insert_sample x (sort_samples xs)

-- The closure `check` of `evaluate_threshold`: the violation that it pushes, if any.
abbrev pub check : PerformanceThreshold → Text → ℕ → ℕ → List ThresholdViolation
check t label budget actual =
    if ltb budget actual
    then record {
      threshold_name = t.name;
      metric = t.metric;
      expected_ms = budget;
      actual_ms = actual;
      percentile_label = label;
    }
      ∷ []
    else []

-- `if let Some(budget)`; the value is asked for only where there is a budget.
abbrev pub check_value :
    PerformanceThreshold → Text → Option ℕ → Option ℕ → Option (List ThresholdViolation)
check_value t label none actual = some []
check_value t label (some budget) none = none
check_value t label (some budget) (some actual) = some (check t label budget actual)

abbrev pub then_check :
    Option (List ThresholdViolation)
    → Option (List ThresholdViolation)
    → Option (List ThresholdViolation)
then_check none next = none
then_check (some violations) none = none
then_check (some violations) (some more) = some (violations ++ more)

abbrev pub result_of :
    PerformanceThreshold → ℕ → Option (List ThresholdViolation) → Option ThresholdResult
result_of t evaluated none = none
result_of t evaluated (some violations) = some (record {
  threshold_name = t.name;
  metric = t.metric;
  passed = is_empty violations;
  violations = violations;
  samples_evaluated = evaluated;
})

abbrev pub samples_of : Option (List ℕ) → List ℕ
samples_of none = []
samples_of (some samples) = samples

module _ (rank : ℕ → ℕ → ℕ) where
  unfoldable pub percentile : List ℕ → ℕ → Option ℕ
  percentile sorted p =
      if is_empty sorted
      then some 0
      else get_elem? sorted (min (rank p (length sorted) - 1) (length sorted - 1))

  unfoldable pub evaluate_threshold : PerformanceThreshold → List ℕ → Option ThresholdResult
  unfolding percentile sort_samples
  evaluate_threshold t samples =
      let sorted = sort_samples samples in
      if is_empty samples
      then result_of t 0 (some [])
      else result_of t (length samples) (
          then_check
            (then_check
              (then_check
                (check_value t (codes "max") (some t.max_ms) (get_elem? sorted (length sorted - 1)))
                (check_value t (codes "p50") t.p50_ms (percentile sorted 50)))
              (check_value t (codes "p95") t.p95_ms (percentile sorted 95)))
            (check_value t (codes "p99") t.p99_ms (percentile sorted 99)))

  unfoldable pub evaluate_thresholds :
      List PerformanceThreshold → List (Text × List ℕ) → List (Option ThresholdResult)
  unfolding evaluate_threshold
  evaluate_thresholds thresholds samples_by_metric =
      map (λ t. evaluate_threshold t (samples_of (lookup t.metric samples_by_metric))) thresholds
