-- ===== src/Scenarios/Recorder.antt =====
-- crates/pengu-mesh-core/src/scenario_recorder.rs: the operations that record steps, assertions and
-- samples. What comes from the clock and the process (`now`, the suffix of an identifier) is an
-- argument. An operation that fails leaves the store as it was.
use pengu_mesh.Prelude.{
  ℕ, Bool, Option, none, some, if◌then◌else◌, Text, text_eq, codes, Result, ok, ◌>>=◌, ◌>>◌, ensure,
  trim,
}
use pengu_mesh.StableId.{stable_id, scenario_step, scenario_assertion, latency_sample}
use pengu_mesh.Scenarios.{
  ScenarioStep, ScenarioAssertion, LatencySample, ScenarioStore, Double, ScenarioError,
  negative_sample, create_scenario_step, insert_scenario_assertion, insert_latency_sample,
}
use pengu_mesh.Scenarios.Checks.{
  is_nonnegative, ensure_run_active, ensure_step, ensure_present, trimmed, given,
}

module _ (is_whitespace : ℕ → Bool) where
  -- The command line of a step, trimmed, unless it is empty, and the checks before the statement.
  unfoldable pub record_step :
      ScenarioStore
      → Text
      → Text
      → Text
      → Option Text
      → Text
      → Text
      → Result (ScenarioStep × ScenarioStore) ScenarioError
  unfolding ensure_run_active create_scenario_step
  record_step m run_id name kind command_line suffix now = do
    ensure_present is_whitespace run_id
    ensure_present is_whitespace name
    ensure_present is_whitespace kind
    ensure_run_active m run_id
    create_scenario_step m (stable_id scenario_step suffix) (trim is_whitespace run_id)
        (trim is_whitespace name) (trim is_whitespace kind) (given is_whitespace command_line) now

  abbrev pub new_assertion :
      Text
      → Option Text
      → Text
      → Option Text
      → Option Text
      → Text
      → Option Text
      → Option Text
      → Text
      → ScenarioAssertion
  new_assertion run_id step_id name expected actual status failure_category notes suffix = record {
    id = stable_id scenario_assertion suffix;
    run_id = trim is_whitespace run_id;
    step_id = trimmed is_whitespace step_id;
    assertion_name = trim is_whitespace name;
    expected_value = given is_whitespace expected;
    actual_value = given is_whitespace actual;
    status = trim is_whitespace status;
    failure_category = given is_whitespace failure_category;
    notes = given is_whitespace notes;
  }

  unfoldable pub create_assertion_record :
      ScenarioStore
      → Text
      → Option Text
      → Text
      → Option Text
      → Option Text
      → Text
      → Option Text
      → Option Text
      → Text
      → Result (ScenarioAssertion × ScenarioStore) ScenarioError
  unfolding ensure_run_active ensure_step insert_scenario_assertion
  create_assertion_record m run_id step_id name expected actual status failure_category notes
        suffix =
      do
        ensure_present is_whitespace run_id
        ensure_present is_whitespace name
        ensure_present is_whitespace status
        ensure_run_active m run_id
        ensure_step m step_id run_id
        let a =
            new_assertion run_id step_id name expected actual status failure_category notes suffix
        m' ← insert_scenario_assertion m a
        ok (a, m')

  abbrev pub new_sample : Text → Option Text → Text → Double → Option Text → Text → LatencySample
  new_sample run_id step_id metric sample_ms capture_method suffix = record {
    id = stable_id latency_sample suffix;
    run_id = trim is_whitespace run_id;
    step_id = trimmed is_whitespace step_id;
    metric_name = trim is_whitespace metric;
    sample_ms = sample_ms;
    capture_method = given is_whitespace capture_method;
  }

  unfoldable pub create_latency_record :
      ScenarioStore
      → Text
      → Option Text
      → Text
      → Double
      → Option Text
      → Text
      → Result (LatencySample × ScenarioStore) ScenarioError
  unfolding ensure_run_active ensure_step insert_latency_sample
  create_latency_record m run_id step_id metric sample_ms capture_method suffix = do
    ensure_present is_whitespace run_id
    ensure_present is_whitespace metric
    ensure (is_nonnegative sample_ms) negative_sample
    ensure_run_active m run_id
    ensure_step m step_id run_id
    let s = new_sample run_id step_id metric sample_ms capture_method suffix
    m' ← insert_latency_sample m s
    ok (s, m')

  -- `StepRecorder::assert_eq` and `StepRecorder::assert_true`.
  unfoldable pub assert_eq :
      ScenarioStore
      → ScenarioStep
      → Text
      → Text
      → Text
      → Text
      → Result (Bool × ScenarioStore) ScenarioError
  unfolding create_assertion_record
  assert_eq m step name expected actual suffix = do
    ensure_present is_whitespace name
    let passed = text_eq expected actual
    r ←
        create_assertion_record m step.run_id (some step.id) name (some expected) (some actual)
          (if passed then codes "passed" else codes "failed")
          (if passed then none else some (codes "mismatch")) none suffix
    ok (passed, r.1)

  unfoldable pub assert_true :
      ScenarioStore
      → ScenarioStep
      → Text
      → Bool
      → Text
      → Result (Bool × ScenarioStore) ScenarioError
  unfolding create_assertion_record
  assert_true m step name value suffix = do
    ensure_present is_whitespace name
    r ←
        create_assertion_record m step.run_id (some step.id) name (some (codes "true"))
          (some (if value then codes "true" else codes "false"))
          (if value then codes "passed" else codes "failed")
          (if value then none else some (codes "false")) none suffix
    ok (value, r.1)
