-- ===== src/Scenarios/Gate.antt =====
-- `scenario_gate` of crates/pengu-mesh-core/src/lib.rs: whether the stored evidence meets a policy.
-- The texts made for people (what a check expects, what it found) are left out. The age of a run in
-- minutes, which the crate `time` reads from its timestamp and the clock, is the parameter `age`;
-- `rank` and `is_whitespace` are those of the thresholds and of `trim`. A result is `none` where the
-- evaluation of a threshold panics.
pub mod Samples
pub mod Passing
pub mod Decision
mod Examples
use pengu_mesh.Prelude.{
  ℕ, ◌+◌, ◌-◌, ◌/◌, ◌^◌, min, leb, Bool, true, false, not, ◌&&◌, Option, none, some, List, [], ◌∷◌,
  ◌++◌, map, if◌then◌else◌, Text, text_eq, codes, length, keep, exists, every, is_empty, trim,
}
use pengu_mesh.Scenarios.{
  ScenarioRun, LatencySample, ScenarioStore, Double, above_zero, below_zero, infinity,
  minus_infinity, not_a_number,
}
use pengu_mesh.Scenarios.Listing.{list_scenario_runs}
use pengu_mesh.Scenarios.Summary.{
  FamilySummary, ScenarioSummaryPayload, list_latency_samples, clamp_limit, scenario_summary,
}
use pengu_mesh.Threshold.{PerformanceThreshold, ThresholdResult, evaluate_thresholds}

-- The type `ScenarioLatencyThreshold` has the fields of `PerformanceThreshold`, to which
-- `scenario_latency_threshold_to_performance` takes it field by field, and so have the results.
pub record ScenarioGatePolicy : Type 0 where
  pub min_runs : ℕ
  pub allowed_statuses : List Text
  pub max_assertion_failures : ℕ
  pub min_samples_per_metric : ℕ
  pub max_latest_age_minutes : Option ℕ
  pub thresholds : List PerformanceThreshold

abbrev pub default_gate_policy : ScenarioGatePolicy
default_gate_policy = record {
  min_runs = 1;
  allowed_statuses = codes "passed" ∷ [];
  max_assertion_failures = 0;
  min_samples_per_metric = 1;
  max_latest_age_minutes = none;
  thresholds = [];
}

pub data CheckName : Type 0 where
  minimum_runs latest_status assertion_failures latest_freshness : CheckName
  threshold_samples threshold_budget : Text → CheckName

pub record ScenarioGateCheck : Type 0 where
  pub name : CheckName
  pub passed : Bool

pub record ScenarioGatePayload : Type 0 where
  pub requested_family : Option Text
  pub requested_limit : ℕ
  pub policy : ScenarioGatePolicy
  pub passed : Bool
  pub summary : ScenarioSummaryPayload
  pub checks : List ScenarioGateCheck
  pub thresholds : List ThresholdResult
  pub recovery : List Text

-- `sample_ms.ceil() as u64`, which is 2 ^ 64 - 1 for all that is larger.
abbrev pub latency_sample_budget_ms : Double → ℕ
latency_sample_budget_ms (above_zero n) = min ((n + (2 ^ 1074 - 1)) / 2 ^ 1074) (2 ^ 64 - 1)
latency_sample_budget_ms _ = 0

abbrev pub gate_check : CheckName → Bool → ScenarioGateCheck
gate_check name passed = record { name = name; passed = passed }

-- `samples_by_metric.entry(metric).or_default().push(sample)`.
unfoldable pub push_sample : Text → ℕ → List (Text × List ℕ) → List (Text × List ℕ)
push_sample metric v [] = (metric, v ∷ []) ∷ []
push_sample metric v ((k, vs) ∷ samples) =
    let rest = push_sample metric v samples in
    if text_eq k metric then (k, vs ++ v ∷ []) ∷ samples else (k, vs) ∷ rest

unfoldable pub push_samples : List LatencySample → List (Text × List ℕ) → List (Text × List ℕ)
unfolding push_sample
push_samples [] samples = samples
push_samples (s ∷ ss) samples =
    push_samples ss (push_sample s.metric_name (latency_sample_budget_ms s.sample_ms) samples)

unfoldable pub samples_by_metric :
    ScenarioStore → List ScenarioRun → List (Text × List ℕ) → List (Text × List ℕ)
unfolding push_samples
samples_by_metric m [] samples = samples
samples_by_metric m (r ∷ rs) samples =
    samples_by_metric m rs (push_samples (list_latency_samples m r.id) samples)

abbrev pub all_some {ℓ} : {A : Type ℓ} → List (Option A) → Option (List A)
all_some [] = some []
all_some (none ∷ os) = none
all_some (some a ∷ os) = elim (all_some os) [ none ↦ none | some rest ↦ some (a ∷ rest) ]

abbrev pub sum_failures : List FamilySummary → ℕ
sum_failures [] = 0
sum_failures (f ∷ fs) = f.assertion_failures + sum_failures fs

abbrev pub threshold_checks : ℕ → List ThresholdResult → List ScenarioGateCheck
threshold_checks n [] = []
threshold_checks n (t ∷ ts) =
    gate_check (threshold_samples t.threshold_name) (leb n t.samples_evaluated)
    ∷ gate_check (threshold_budget t.threshold_name) t.passed
    ∷ threshold_checks n ts

abbrev pub recovery_of : Bool → Option Text → List Text
recovery_of true family = []
recovery_of false family =
    codes "run pengu-mesh scenario-summary --limit 25"
    ∷ elim family [
      | none ↦
          codes
            "inspect failing families and rerun their examples/workflows/<family>/run.sh scripts"
      | some f ↦
          codes "rerun examples/workflows/"
          ++ f
          ++ codes "/run.sh with an isolated PENGU_MESH_RUNTIME_ROOT"
    ]
    ∷ codes "tighten or relax latency thresholds only after repeated baseline evidence"
    ∷ []

-- No text for a status that is missing.
abbrev pub status_allowed : List Text → FamilySummary → Bool
status_allowed statuses f = elim f.latest_status [
  | none ↦ true
  | some status ↦ exists (λ s. text_eq s status) statuses
]

abbrev pub age_within : ℕ → Option ℕ → Bool
age_within limit none = false
age_within limit (some minutes) = leb minutes limit

abbrev pub with_default_status : ScenarioGatePolicy → ScenarioGatePolicy
with_default_status p =
    if is_empty p.allowed_statuses then record p { allowed_statuses = codes "passed" ∷ [] } else p

-- The trimmed statuses that are not empty.
abbrev pub allowed : (ℕ → Bool) → List Text → List Text
allowed is_whitespace statuses = keep (λ s. not (is_empty s)) (map (trim is_whitespace) statuses)

module _ (age : Text → Option ℕ) where
  abbrev pub is_fresh : ℕ → FamilySummary → Bool
  is_fresh limit f = elim f.latest_started_at [
    | none ↦ false
    | some started_at ↦ age_within limit (age started_at)
  ]

  abbrev pub freshness_checks : Option ℕ → List FamilySummary → List ScenarioGateCheck
  freshness_checks none fs = []
  freshness_checks (some limit) fs =
      gate_check latest_freshness (not (is_empty fs) && every (is_fresh limit) fs) ∷ []

module _ (is_whitespace : ℕ → Bool) (age : Text → Option ℕ) where
  abbrev pub gate_checks :
      ScenarioGatePolicy → ScenarioSummaryPayload → List ThresholdResult → List ScenarioGateCheck
  gate_checks p s thresholds =
      (gate_check minimum_runs (leb p.min_runs s.total_runs)
        ∷ gate_check latest_status (
            not (is_empty s.families)
            && every (status_allowed (allowed is_whitespace p.allowed_statuses)) s.families)
        ∷ gate_check assertion_failures (leb (sum_failures s.families) p.max_assertion_failures)
        ∷ freshness_checks age p.max_latest_age_minutes s.families)
      ++ threshold_checks p.min_samples_per_metric thresholds

  abbrev pub gate_payload :
      Option Text
      → ℕ
      → ScenarioGatePolicy
      → ScenarioSummaryPayload
      → List ThresholdResult
      → ScenarioGatePayload
  gate_payload family limit p s thresholds =
      let checks = gate_checks p s thresholds in
      let passed = every (λ c. c.passed) checks in
      record {
        requested_family = family;
        requested_limit = limit;
        policy = p;
        passed = passed;
        summary = s;
        checks = checks;
        thresholds = thresholds;
        recovery = recovery_of passed family;
      }

  abbrev pub gate_of :
      Option Text
      → ℕ
      → ScenarioGatePolicy
      → ScenarioSummaryPayload
      → Option (List ThresholdResult)
      → Option ScenarioGatePayload
  gate_of family limit p s none = none
  gate_of family limit p s (some thresholds) = some (gate_payload family limit p s thresholds)

  unfoldable pub scenario_gate :
      (ℕ → ℕ → ℕ)
      → ScenarioStore
      → Option Text
      → ℕ
      → ScenarioGatePolicy
      → Option ScenarioGatePayload
  unfolding scenario_summary samples_by_metric evaluate_thresholds list_scenario_runs
  scenario_gate rank m family limit policy =
      let n = clamp_limit limit in
      let p = with_default_status policy in
      let samples = samples_by_metric m (list_scenario_runs m family n) [] in
      gate_of family n p (scenario_summary m family n)
        (all_some (evaluate_thresholds rank p.thresholds samples))
