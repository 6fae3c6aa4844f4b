-- ===== src/Scenarios/Summary.antt =====
-- `scenario_summary_for_store` of crates/pengu-mesh-core/src/lib.rs, with the two listings that it
-- reads (crates/pengu-mesh-state/src/lib.rs).
pub mod Families
pub mod Partition
pub mod Described
use pengu_mesh.Prelude.{
  ℕ, ◌+◌, ◌-◌, ◌/◌, min, max, ltb, Bool, true, false, not, Option, none, some, List, [], ◌∷◌, ◌++◌,
  map, if◌then◌else◌, Text, text_eq, text_lt, codes, length, keep, get_elem?,
}
use pengu_mesh.Tables.{find_row}
use pengu_mesh.Scenarios.{
  ScenarioRun, ScenarioStep, ScenarioAssertion, LatencySample, ScenarioStore, Double, above_zero,
  below_zero, infinity, minus_infinity, not_a_number, step_key,
}
use pengu_mesh.Scenarios.Listing.{list_scenario_runs}
use pengu_mesh.Tables.Query.{order_by}
use pengu_mesh.Scenarios.Checks.{is_some, or_else}

-- `COALESCE(scenario_steps.ordinal, 2147483647)`, for the step that is joined.
abbrev pub ordinal_of : Option ScenarioStep → ℕ
ordinal_of none = 2147483647
ordinal_of (some s) = s.ordinal

abbrev pub joined_ordinal : ScenarioStore → Option Text → ℕ
joined_ordinal m none = ordinal_of none
joined_ordinal m (some step_id) = ordinal_of (find_row step_key m.steps step_id)

unfoldable pub list_scenario_assertions : ScenarioStore → Text → List ScenarioAssertion
unfolding order_by
list_scenario_assertions m run_id =
    order_by (λ a b. ltb (joined_ordinal m a.step_id) (joined_ordinal m b.step_id))
      (keep (λ a. text_eq a.run_id run_id) m.assertions)

unfoldable pub list_latency_samples : ScenarioStore → Text → List LatencySample
unfolding order_by
list_latency_samples m run_id =
    order_by (λ a b. ltb (joined_ordinal m a.step_id) (joined_ordinal m b.step_id))
      (keep (λ s. text_eq s.run_id run_id) m.samples)

pub record FamilySummaryBuilder : Type 0 where
  pub scenario_family : Text
  pub runs : ℕ
  pub statuses : List (Text × ℕ)  -- a `BTreeMap`: in the order of the statuses
  pub assertion_total : ℕ
  pub assertion_failures : ℕ
  pub latencies_ms : List Double
  pub latest_run_id : Option Text
  pub latest_status : Option Text
  pub latest_started_at : Option Text
  pub latest_commit_sha : Option Text

abbrev pub new_builder : Text → FamilySummaryBuilder
new_builder family = record {
  scenario_family = family;
  runs = 0;
  statuses = [];
  assertion_total = 0;
  assertion_failures = 0;
  latencies_ms = [];
  latest_run_id = none;
  latest_status = none;
  latest_started_at = none;
  latest_commit_sha = none;
}

-- `*statuses.entry(status).or_insert(0) += 1`.
unfoldable pub count_status : Text → List (Text × ℕ) → List (Text × ℕ)
count_status s [] = (s, 1) ∷ []
count_status s ((t, n) ∷ counts) =
    let rest = count_status s counts in
    if text_eq s t
    then (t, n + 1) ∷ counts
    else if text_lt s t
    then (s, 1) ∷ (t, n) ∷ counts
    else (t, n) ∷ rest

abbrev pub with_latest : ScenarioRun → FamilySummaryBuilder → FamilySummaryBuilder
with_latest r b = if is_some b.latest_run_id then b else record b {
  latest_run_id = some r.id;
  latest_status = some r.status;
  latest_started_at = some r.started_at;
  latest_commit_sha = r.commit_sha;
}

abbrev pub is_failure : ScenarioAssertion → Bool
is_failure a = not (text_eq a.status (codes "passed"))

-- What the loop adds for a run to the summary of its family.
abbrev pub add_run : ScenarioStore → ScenarioRun → FamilySummaryBuilder → FamilySummaryBuilder
add_run m r b =
    let c = with_latest r b in
    record c {
      runs = c.runs + 1;
      statuses = count_status r.status c.statuses;
      assertion_total = c.assertion_total + length (list_scenario_assertions m r.id);
      assertion_failures =
          c.assertion_failures + length (keep is_failure (list_scenario_assertions m r.id));
      latencies_ms = c.latencies_ms ++ map (λ s. s.sample_ms) (list_latency_samples m r.id);
    }

-- The family's summary is the first with its name, or a new one at the end.
unfoldable pub add_to_family :
    ScenarioStore → ScenarioRun → List FamilySummaryBuilder → List FamilySummaryBuilder
unfolding count_status list_scenario_assertions list_latency_samples
add_to_family m r [] = add_run m r (new_builder r.scenario_family) ∷ []
add_to_family m r (b ∷ bs) =
    let rest = add_to_family m r bs in
    if text_eq b.scenario_family r.scenario_family then add_run m r b ∷ bs else b ∷ rest

unfoldable pub summarize :
    ScenarioStore → List ScenarioRun → List FamilySummaryBuilder → List FamilySummaryBuilder
unfolding add_to_family
summarize m [] bs = bs
summarize m (r ∷ rs) bs = summarize m rs (add_to_family m r bs)

-- `total_cmp` of doubles. The sign of a zero is not modelled, nor is the sign of a NaN, which stands
-- above all numbers.
abbrev pub double_lt : Double → Double → Bool
double_lt (below_zero a) (below_zero b) = ltb b a
double_lt (below_zero a) minus_infinity = false
double_lt (below_zero a) _ = true
double_lt minus_infinity minus_infinity = false
double_lt minus_infinity _ = true
double_lt (above_zero a) (above_zero b) = ltb a b
double_lt (above_zero a) infinity = true
double_lt (above_zero a) not_a_number = true
double_lt (above_zero a) _ = false
double_lt infinity not_a_number = true
double_lt infinity _ = false
double_lt not_a_number _ = false

pub record FamilySummary : Type 0 where
  pub scenario_family : Text
  pub runs : ℕ
  pub statuses : List (Text × ℕ)
  pub assertion_total : ℕ
  pub assertion_failures : ℕ
  pub latency_sample_count : ℕ
  pub latency_min_ms : Option Double
  pub latency_median_ms : Option Double
  pub latency_max_ms : Option Double
  pub latest_run_id : Option Text
  pub latest_status : Option Text
  pub latest_started_at : Option Text
  pub latest_commit_sha : Option Text

abbrev pub last_of {ℓ} : {A : Type ℓ} → List A → Option A
last_of [] = none
last_of (x ∷ xs) = or_else (last_of xs) (some x)

unfoldable pub finish_family : FamilySummaryBuilder → FamilySummary
unfolding order_by
finish_family b =
    let latencies = order_by double_lt b.latencies_ms in
    record {
      scenario_family = b.scenario_family;
      runs = b.runs;
      statuses = b.statuses;
      assertion_total = b.assertion_total;
      assertion_failures = b.assertion_failures;
      latency_sample_count = length latencies;
      latency_min_ms = get_elem? latencies 0;
      latency_median_ms = get_elem? latencies (length latencies / 2);
      latency_max_ms = last_of latencies;
      latest_run_id = b.latest_run_id;
      latest_status = b.latest_status;
      latest_started_at = b.latest_started_at;
      latest_commit_sha = b.latest_commit_sha;
    }

pub record ScenarioSummaryPayload : Type 0 where
  pub requested_family : Option Text
  pub requested_limit : ℕ
  pub total_runs : ℕ
  pub families : List FamilySummary

-- `limit.clamp(1, 200)`.
abbrev pub clamp_limit : ℕ → ℕ
clamp_limit limit = min (max limit 1) 200

unfoldable pub scenario_summary : ScenarioStore → Option Text → ℕ → ScenarioSummaryPayload
unfolding summarize finish_family list_scenario_runs
scenario_summary m family limit =
    let runs = list_scenario_runs m family (clamp_limit limit) in
    record {
      requested_family = family;
      requested_limit = clamp_limit limit;
      total_runs = length runs;
      families = map finish_family (summarize m runs []);
    }
