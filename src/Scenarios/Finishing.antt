-- ===== src/Scenarios/Finishing.antt =====
-- The operations of crates/pengu-mesh-core/src/scenario_recorder.rs that finish a step or a run.
use pengu_mesh.Prelude.{
  ℕ, Bool, Option, some, Text, every, Result, ok, ◌>>=◌, ◌>>◌, ensure, found, trim,
}
use pengu_mesh.Scenarios.{
  ScenarioRun, ScenarioStep, ScenarioStore, ScenarioError, unknown_run, unknown_step, finished_run,
  finished_step, active_steps, get_scenario_run, get_scenario_step, update_scenario_run,
  update_scenario_step,
}
use pengu_mesh.Scenarios.Listing.{list_scenario_steps}
use pengu_mesh.Scenarios.Checks.{is_some, or_else, is_running, ensure_present, given}

module _ (is_whitespace : ℕ → Bool) where
  abbrev pub ended_step : ScenarioStep → Text → Option Text → Text → ScenarioStep
  ended_step s status error_code now = record s {
    finished_at = some now;
    status = trim is_whitespace status;
    error_code = or_else (given is_whitespace error_code) s.error_code;
  }

  unfoldable pub finish_step_record :
      ScenarioStore
      → Text
      → Text
      → Option Text
      → Text
      → Result (ScenarioStep × ScenarioStore) ScenarioError
  unfolding update_scenario_step
  finish_step_record m step_id status error_code now = do
    ensure_present is_whitespace step_id
    ensure_present is_whitespace status
    step ← found (get_scenario_step m step_id) (unknown_step step_id)
    ensure (is_running step.finished_at step.status) (finished_step step_id step.status)
    let ended = ended_step step status error_code now
    ok (ended, update_scenario_step m ended)

  abbrev pub ended_run : ScenarioRun → Text → Option Text → Text → ScenarioRun
  ended_run r status summary_path now = record r {
    finished_at = some now;
    status = trim is_whitespace status;
    summary_path = or_else (given is_whitespace summary_path) r.summary_path;
  }

  unfoldable pub finish_run_record :
      ScenarioStore
      → Text
      → Text
      → Option Text
      → Text
      → Result (ScenarioRun × ScenarioStore) ScenarioError
  unfolding update_scenario_run list_scenario_steps
  finish_run_record m run_id status summary_path now = do
    ensure_present is_whitespace run_id
    ensure_present is_whitespace status
    run ← found (get_scenario_run m run_id) (unknown_run run_id)
    ensure (is_running run.finished_at run.status) (finished_run run_id run.status)
    ensure (every (λ s. is_some s.finished_at) (list_scenario_steps m run_id)) active_steps
    let ended = ended_run run status summary_path now
    ok (ended, update_scenario_run m ended)
