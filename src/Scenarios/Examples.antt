-- ===== src/Scenarios/Examples.antt =====
-- Runs of the scenario recorder (crates/pengu-mesh-core/src/scenario_recorder.rs).
use pengu_mesh.Prelude.{
  ℕ, ◌≡◌, refl, Bool, true, false, ◌||◌, ◌&&◌, ◌==◌, leb, none, some, List, [], ◌∷◌, map, arith,
  Text, codes, length, Memᴰ, trim, text_eq,
}
use pengu_mesh.StableId.{IsIdChar, stable_id}
use pengu_mesh.Tables.{find_row, key_taken, update_row}
use pengu_mesh.Scenarios.{
  ScenarioStep, ScenarioStore, above_zero, steps_of, get_scenario_run, get_scenario_step,
}
use pengu_mesh.Scenarios.Starting.{Environment}
use pengu_mesh.Scenarios.Recorder.{record_step, create_assertion_record, create_latency_record}
use pengu_mesh.Scenarios.Finishing.{finish_run_record}
use pengu_mesh.Scenarios.Listing.{list_scenario_steps}
use pengu_mesh.Scenarios.Calls.{
  Call, start_run, start_step, latency, finish_step, finish_run, perform_all,
}
use pengu_mesh.Scenarios.Valid.{numbers, WellFormed}
use pengu_mesh.Scenarios.Frozen.{evidence, Finished}
use pengu_mesh.Scenarios.History.{
  perform_all-WellFormed, evidence-perform_all, list_scenario_steps-perform_all,
}
use pengu_mesh.Scenarios.Refusals.{is_err, closed_run_refuses, unfinished_step_refuses}

abbrev pub blank : ℕ → Bool
blank c = c == 32 || (leb 9 c && leb c 13)

blank-IsIdChar : (c : ℕ) → IsIdChar c → blank c ≡ false
blank-IsIdChar c h = ground arith

abbrev nothing : ScenarioStore
nothing = record { runs = []; steps = []; assertions = []; samples = []; fingerprints = [] }

nothing-WellFormed : WellFormed nothing
nothing-WellFormed = record {
  run_ids = tt;
  step_ids = tt;
  id_chars = tt;
  owned = tt;
  numbered = λ _. refl;
}

abbrev host : Environment
host = record {
  root_dir = codes "/srv";
  git_commit = none;
  git_branch = none;
  system = codes "linux";
  machine = codes "x86_64";
  os_version = none;
  rust_version = none;
  cargo_version = none;
  chrome_channel = none;
  chrome_version = none;
}

abbrev run_id : Text
run_id = codes "scenario_run_a"

-- A run with two steps, the second of which is not finished.
abbrev two_steps : List Call
two_steps =
    start_run host (codes " smoke ") (codes "f") (codes "v1") (codes "cli") (codes "A") (codes "B")
      (codes "t0")
    ∷ start_step run_id (codes "open") (codes "cli") none (codes "s1") (codes "t1")
    ∷ finish_step (codes "scenario_step_s1") (codes "passed") none (codes "t2")
    ∷ start_step run_id (codes "close") (codes "cli") (some (codes "  ")) (codes "s2") (codes "t2")
    ∷ []

-- What ends the run: the first call fails for the second step.
abbrev ending : List Call
ending =
    finish_run run_id (codes "passed") none (codes "t3")
    ∷ finish_step (codes "scenario_step_s2") (codes "passed") none (codes "t3")
    ∷ finish_run run_id (codes "passed") none (codes "t4")
    ∷ []

abbrev late : List Call
late =
    start_step run_id (codes "late") (codes "cli") none (codes "s3") (codes "t5")
    ∷ latency run_id none (codes "m") (above_zero 3) none (codes "l")
    ∷ finish_step (codes "scenario_step_s1") (codes "failed") none (codes "t6")
    ∷ []

abbrev pub begun : ScenarioStore
begun = perform_all blank nothing two_steps

abbrev pub ended : ScenarioStore
ended = perform_all blank begun ending

begun-WellFormed : WellFormed begun
begun-WellFormed = perform_all-WellFormed blank blank-IsIdChar nothing two_steps nothing-WellFormed

perform_all-WellFormed_example : WellFormed (perform_all blank begun ending)
perform_all-WellFormed_example =
    perform_all-WellFormed blank blank-IsIdChar begun ending begun-WellFormed

ended-Finished : Finished ended run_id
unfolding perform_all get_scenario_run find_row trim get_scenario_step key_taken text_eq stable_id
    update_row
ended-Finished = (_, refl, refl)

evidence-perform_all_example :
    evidence (perform_all blank ended late) run_id ≡ evidence ended run_id
evidence-perform_all_example =
    evidence-perform_all blank blank-IsIdChar ended late run_id
      (perform_all-WellFormed blank blank-IsIdChar begun ending begun-WellFormed) ended-Finished

list_scenario_steps-perform_all_example :
    (list_scenario_steps (perform_all blank begun ending) run_id
      ≡ steps_of run_id (perform_all blank begun ending).steps)
    × (map (λ s. s.ordinal) (list_scenario_steps (perform_all blank begun ending) run_id)
        ≡ numbers 1 (length (steps_of run_id (perform_all blank begun ending).steps)))
list_scenario_steps-perform_all_example =
    list_scenario_steps-perform_all blank blank-IsIdChar begun ending run_id begun-WellFormed

ordinals : map (λ s. s.ordinal) (list_scenario_steps ended run_id) ≡ 1 ∷ 2 ∷ []
unfolding list_scenario_steps perform_all get_scenario_run find_row trim get_scenario_step key_taken
    text_eq stable_id update_row
ordinals = refl

closed_run_refuses_example :
    (is_err (record_step blank ended run_id (codes "x") (codes "k") none (codes "s4") (codes "t"))
      ≡ true)
    × (is_err (
          create_assertion_record blank ended run_id none
            (codes "x")
            none
            none
            (codes "passed")
            none
            none
            (codes "s4"))
        ≡ true)
    × (is_err (
          create_latency_record blank ended run_id none
            (codes "x")
            (above_zero 1)
            none
            (codes "s4"))
        ≡ true)
    × (is_err (finish_run_record blank ended run_id (codes "passed") none (codes "t")) ≡ true)
closed_run_refuses_example =
    closed_run_refuses blank ended run_id none (codes "x") (codes "k") (codes "passed") (codes "s4")
      (codes "t") none none none none none none none (above_zero 1) ended-Finished

abbrev second_step : ScenarioStep
second_step = record {
  id = codes "scenario_step_s2";
  run_id = run_id;
  ordinal = 2;
  step_name = codes "close";
  step_kind = codes "cli";
  command_line = none;
  started_at = codes "t2";
  finished_at = none;
  status = codes "running";
  error_code = none;
}

second_step-mem : Memᴰ second_step begun.steps
unfolding perform_all get_scenario_run find_row trim get_scenario_step key_taken text_eq stable_id
    update_row
second_step-mem = Memᴰ.tail (Memᴰ.head refl)

unfinished_step_refuses_example :
    is_err (finish_run_record blank begun second_step.run_id (codes "passed") none (codes "t3"))
    ≡ true
unfinished_step_refuses_example =
    unfinished_step_refuses blank begun second_step (codes "passed") none (codes "t3")
      begun-WellFormed second_step-mem refl
