-- ===== src/Scenarios/Listing.antt =====
-- The queries that list scenario steps and runs (crates/pengu-mesh-state/src/lib.rs).
pub mod Newest
use pengu_mesh.Prelude.{
  ℕ, ◌==◌, ltb, Bool, true, not, Option, none, some, List, if◌then◌else◌, Text, text_eq, text_lt,
  keep,
}
use pengu_mesh.Tables.Query.{order_by, limit}
use pengu_mesh.Scenarios.{ScenarioRun, ScenarioStep, ScenarioStore, steps_of}

-- `ORDER BY ordinal ASC, started_at ASC, id ASC`.
abbrev pub step_before : ScenarioStep → ScenarioStep → Bool
step_before s t =
    if not (s.ordinal == t.ordinal)
    then ltb s.ordinal t.ordinal
    else if not (text_eq s.started_at t.started_at)
    then text_lt s.started_at t.started_at
    else text_lt s.id t.id

unfoldable pub list_scenario_steps : ScenarioStore → Text → List ScenarioStep
unfolding order_by
list_scenario_steps m run_id = order_by step_before (steps_of run_id m.steps)

-- `ORDER BY started_at DESC`.
abbrev pub run_before : ScenarioRun → ScenarioRun → Bool
run_before r s = text_lt s.started_at r.started_at

abbrev pub family_matches : Option Text → ScenarioRun → Bool
family_matches none r = true
family_matches (some family) r = text_eq r.scenario_family family

unfoldable pub list_scenario_runs : ScenarioStore → Option Text → ℕ → List ScenarioRun
unfolding order_by limit
list_scenario_runs m family n = limit n (order_by run_before (keep (family_matches family) m.runs))
