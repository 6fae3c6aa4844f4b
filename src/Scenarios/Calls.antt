-- ===== src/Scenarios/Calls.antt =====
-- The calls of crates/pengu-mesh-core/src/scenario_recorder.rs, and sequences of them.
use pengu_mesh.Prelude.{ℕ, Bool, Option, List, [], ◌∷◌, Text, Result, ok, err}
use pengu_mesh.Scenarios.{ScenarioStore, Double, ScenarioError}
use pengu_mesh.Scenarios.Starting.{Environment, new_recorder}
use pengu_mesh.Scenarios.Recorder.{record_step, create_assertion_record, create_latency_record}
use pengu_mesh.Scenarios.Finishing.{finish_step_record, finish_run_record}

pub data Call : Type 0 where
  start_run : Environment → Text → Text → Text → Text → Text → Text → Text → Call
  start_step : Text → Text → Text → Option Text → Text → Text → Call
  assertion :
      Text
      → Option Text
      → Text
      → Option Text
      → Option Text
      → Text
      → Option Text
      → Option Text
      → Text
      → Call
  latency : Text → Option Text → Text → Double → Option Text → Text → Call
  finish_step : Text → Text → Option Text → Text → Call
  finish_run : Text → Text → Option Text → Text → Call

-- The store after an operation: an error leaves it as it was.
abbrev pub stored {ℓ} :
    {A : Type ℓ} → ScenarioStore → Result (A × ScenarioStore) ScenarioError → ScenarioStore
stored m (ok a) = a.1
stored m (err e) = m

module _ (is_whitespace : ℕ → Bool) where
  unfoldable pub perform : ScenarioStore → Call → ScenarioStore
  unfolding new_recorder record_step create_assertion_record create_latency_record
      finish_step_record finish_run_record
  perform m (start_run e name family version surface suffix suffix' now) =
      (new_recorder is_whitespace m e name family version surface suffix suffix' now).1
  perform m (start_step run_id name kind command_line suffix now) =
      stored m (record_step is_whitespace m run_id name kind command_line suffix now)
  perform m (assertion run_id step_id name expected actual status failure_category notes suffix) =
      stored m (
        create_assertion_record is_whitespace m run_id step_id name expected actual status
          failure_category notes suffix)
  perform m (latency run_id step_id metric sample_ms capture_method suffix) =
      stored m (
        create_latency_record is_whitespace m run_id step_id metric sample_ms capture_method suffix)
  perform m (finish_step step_id status error_code now) =
      stored m (finish_step_record is_whitespace m step_id status error_code now)
  perform m (finish_run run_id status summary_path now) =
      stored m (finish_run_record is_whitespace m run_id status summary_path now)

  unfoldable pub perform_all : ScenarioStore → List Call → ScenarioStore
  unfolding perform
  perform_all m [] = m
  perform_all m (c ∷ cs) = perform_all (perform m c) cs
