-- ===== src/Scenarios/Checks.antt =====
-- The checks of crates/pengu-mesh-core/src/scenario_recorder.rs.
use pengu_mesh.Prelude.{
  ℕ, Bool, true, false, not, ◌&&◌, Option, none, some, if◌then◌else◌, Text, text_eq, codes,
  is_empty, Result, ok, ◌>>=◌, ◌>>◌, ensure, found, trim,
}
use pengu_mesh.Scenarios.{
  ScenarioStore, Double, above_zero, infinity, ScenarioError, empty_field, unknown_run,
  unknown_step, finished_run, finished_step, other_run, get_scenario_run, get_scenario_step,
}

abbrev pub is_some {ℓ} : {A : Type ℓ} → Option A → Bool
is_some none = false
is_some (some a) = true

abbrev pub or_else {ℓ} : {A : Type ℓ} → Option A → Option A → Option A
or_else none b = b
or_else (some a) b = some a

-- `finished_at.is_none() && status == "running"`.
abbrev pub is_running : Option Text → Text → Bool
is_running finished_at status = not (is_some finished_at) && text_eq status (codes "running")

-- `sample_ms >= 0.0`.
abbrev pub is_nonnegative : Double → Bool
is_nonnegative (above_zero n) = true
is_nonnegative infinity = true
is_nonnegative _ = false

unfoldable pub ensure_run_active : ScenarioStore → Text → Result (Unit {0}) ScenarioError
ensure_run_active m run_id = do
  run ← found (get_scenario_run m run_id) (unknown_run run_id)
  ensure (is_running run.finished_at run.status) (finished_run run_id run.status)

unfoldable pub ensure_step_belongs_to_run :
    ScenarioStore → Text → Text → Result (Unit {0}) ScenarioError
ensure_step_belongs_to_run m step_id run_id = do
  step ← found (get_scenario_step m step_id) (unknown_step step_id)
  ensure (text_eq step.run_id run_id) other_run

unfoldable pub ensure_step_active : ScenarioStore → Text → Result (Unit {0}) ScenarioError
ensure_step_active m step_id = do
  step ← found (get_scenario_step m step_id) (unknown_step step_id)
  ensure (is_running step.finished_at step.status) (finished_step step_id step.status)

-- The checks of a step that an assertion or a sample may name.
unfoldable pub ensure_step : ScenarioStore → Option Text → Text → Result (Unit {0}) ScenarioError
unfolding ensure_step_belongs_to_run ensure_step_active
ensure_step m none run_id = ok tt
ensure_step m (some step_id) run_id = do
  ensure_step_belongs_to_run m step_id run_id
  ensure_step_active m step_id

module _ (is_whitespace : ℕ → Bool) where
  abbrev pub ensure_present : Text → Result (Unit {0}) ScenarioError
  ensure_present value = ensure (not (is_empty (trim is_whitespace value))) empty_field

  -- `map(str::trim)`, and `filter(|value| !value.is_empty())` after it.
  abbrev pub trimmed : Option Text → Option Text
  trimmed none = none
  trimmed (some s) = some (trim is_whitespace s)

  abbrev pub not_empty : Option Text → Option Text
  not_empty none = none
  not_empty (some s) = if is_empty s then none else some s

  abbrev pub given : Option Text → Option Text
  given o = not_empty (trimmed o)
