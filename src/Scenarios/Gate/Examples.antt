-- ===== src/Scenarios/Gate/Examples.antt =====
-- The summary and the gate of crates/pengu-mesh-core/src/lib.rs on a run that has ended.
use pengu_mesh.Prelude.{
  ℕ, ◌+◌, ◌*◌, ◌/◌, ◌≡◌, ◌↔◌, refl, Bool, true, false, Option, none, some, [], Text, text_eq, keep,
  exists, All, trim, Pairwise, length,
}
use pengu_mesh.StableId.{stable_id}
use pengu_mesh.Tables.{find_row, key_taken, update_row}
use pengu_mesh.Scenarios.{get_scenario_run, get_scenario_step}
use pengu_mesh.Scenarios.Calls.{perform_all}
use pengu_mesh.Scenarios.Examples.{blank, begun, ended}
use pengu_mesh.Scenarios.Listing.{list_scenario_runs}
use pengu_mesh.Scenarios.Listing.Newest.{ListsLatest}
use pengu_mesh.Scenarios.Summary.{clamp_limit, scenario_summary}
use pengu_mesh.Scenarios.Summary.Partition.{in_family}
use pengu_mesh.Scenarios.Summary.Described.{Describes, scenario_summary_lem}
use pengu_mesh.Scenarios.Gate.{
  ScenarioGatePolicy, ScenarioGatePayload, default_gate_policy, with_default_status, scenario_gate,
}
use pengu_mesh.Scenarios.Gate.Decision.{Meets, scenario_gate_lem}

abbrev hundredths : ℕ → ℕ → ℕ
hundredths p n = (p * n + 99) / 100

abbrev one_minute : Text → Option ℕ
one_minute started_at = some 1

abbrev policy : ScenarioGatePolicy
policy = record default_gate_policy { allowed_statuses = []; max_latest_age_minutes = some 5 }

scenario_summary_lem_example :
    let runs = list_scenario_runs ended none (clamp_limit 25) in
    let p = scenario_summary ended none 25 in
    (p.total_runs ≡ length runs)
    × All (λ f. Describes ended (keep (in_family f.scenario_family) runs) f) p.families
    × Pairwise (λ f g. text_eq f.scenario_family g.scenario_family ≡ false) p.families
    × All (λ r. exists (λ f. text_eq f.scenario_family r.scenario_family) p.families ≡ true) runs
scenario_summary_lem_example = scenario_summary_lem ended none 25

scenario_gate_lem_example :
    (p : ScenarioGatePayload) × (scenario_gate blank one_minute hundredths ended none 25 policy
      ≡ some p)
    × ListsLatest ended none (clamp_limit 25) (list_scenario_runs ended none (clamp_limit 25))
    × ((p.passed ≡ true)
        ↔ Meets hundredths blank one_minute ended
            (list_scenario_runs ended none (clamp_limit 25))
            (with_default_status policy))
scenario_gate_lem_example = scenario_gate_lem hundredths blank one_minute ended none 25 policy

abbrev passed_of : Option ScenarioGatePayload → Option Bool
passed_of none = none
passed_of (some p) = some p.passed

ended_passes :
    passed_of (scenario_gate blank one_minute hundredths ended none 25 policy) ≡ some true
unfolding scenario_gate perform_all trim get_scenario_run find_row get_scenario_step key_taken
    text_eq stable_id update_row
ended_passes = refl

begun_fails :
    passed_of (scenario_gate blank one_minute hundredths begun none 25 policy) ≡ some false
unfolding scenario_gate perform_all trim get_scenario_run find_row get_scenario_step key_taken
    text_eq stable_id update_row
begun_fails = refl
