-- ===== src/Scenarios.antt =====
-- The evidence of scenarios: the tables scenario_runs, scenario_steps, scenario_assertions,
-- latency_samples and environment_fingerprints of crates/pengu-mesh-state/src/lib.rs, with the types
-- of their rows in crates/pengu-mesh-shared/src/types.rs. SQLite enforces the primary keys and the
-- references. An `i64` ordinal is a natural number: the ordinals start at 1.
pub mod Listing
pub mod Checks
pub mod Starting
pub mod Recorder
pub mod Finishing
pub mod Valid
pub mod Keeps
pub mod Changes
pub mod Calls
pub mod Kept
pub mod History
pub mod Refusals
pub mod Summary
pub mod Gate
pub mod Frozen
mod Examples
use pengu_mesh.Prelude.{
  ℕ, ◌+◌, max, Bool, true, false, not, ◌&&◌, ◌||◌, Option, none, some, List, [], ◌∷◌, ◌++◌, map,
  arith, if◌then◌else◌, Text, text_eq, codes, keep, exists, Result, ok, err, ◌>>=◌,
}
use pengu_mesh.Tables.{find_row, key_taken, update_row}

pub record ScenarioRun : Type 0 where
  pub id : Text
  pub scenario_name : Text
  pub scenario_family : Text
  pub scenario_version : Text
  pub tool_surface : Text
  pub runtime_root : Option Text
  pub commit_sha : Option Text
  pub branch_name : Option Text
  pub platform : Text
  pub started_at : Text
  pub finished_at : Option Text
  pub status : Text
  pub summary_path : Option Text

pub record ScenarioStep : Type 0 where
  pub id : Text
  pub run_id : Text
  pub ordinal : ℕ
  pub step_name : Text
  pub step_kind : Text
  pub command_line : Option Text
  pub started_at : Text
  pub finished_at : Option Text
  pub status : Text
  pub error_code : Option Text

pub record ScenarioAssertion : Type 0 where
  pub id : Text
  pub run_id : Text
  pub step_id : Option Text
  pub assertion_name : Text
  pub expected_value : Option Text
  pub actual_value : Option Text
  pub status : Text
  pub failure_category : Option Text
  pub notes : Option Text

-- A double: a finite one is a multiple of the least positive one, 2 ^ -1074. `below_zero n` is the
-- negative of `n + 1` of them.
pub data Double : Type 0 where
  above_zero below_zero : ℕ → Double
  infinity minus_infinity not_a_number : Double

pub record LatencySample : Type 0 where
  pub id : Text
  pub run_id : Text
  pub step_id : Option Text
  pub metric_name : Text
  pub sample_ms : Double
  pub capture_method : Option Text

pub record EnvironmentFingerprint : Type 0 where
  pub id : Text
  pub run_id : Text
  pub platform : Text
  pub arch : Text
  pub os_version : Option Text
  pub rust_version : Option Text
  pub cargo_version : Option Text
  pub chrome_channel : Option Text
  pub chrome_version : Option Text

pub record ScenarioStore : Type 0 where
  pub runs : List ScenarioRun
  pub steps : List ScenarioStep
  pub assertions : List ScenarioAssertion
  pub samples : List LatencySample
  pub fingerprints : List EnvironmentFingerprint

pub data ScenarioError : Type 0 where
  empty_field : ScenarioError
  negative_sample : ScenarioError
  unknown_run unknown_step : Text → ScenarioError
  finished_run finished_step : Text → Text → ScenarioError  -- the status it has
  other_run : ScenarioError  -- the step belongs to another run
  active_steps : ScenarioError
  constraint_failed : ScenarioError

abbrev pub run_key : ScenarioRun → Text
run_key r = r.id

abbrev pub step_key : ScenarioStep → Text
step_key s = s.id

abbrev pub assertion_key : ScenarioAssertion → Text
assertion_key a = a.id

abbrev pub sample_key : LatencySample → Text
sample_key s = s.id

abbrev pub fingerprint_key : EnvironmentFingerprint → Text
fingerprint_key f = f.id

-- `REFERENCES scenario_runs(id)` and `REFERENCES scenario_steps(id)`, which a NULL meets.
abbrev pub has_run : ScenarioStore → Text → Bool
has_run m run_id = key_taken run_key m.runs run_id

abbrev pub has_step : ScenarioStore → Option Text → Bool
has_step m none = true
has_step m (some step_id) = key_taken step_key m.steps step_id

unfoldable pub insert_scenario_run :
    ScenarioStore → ScenarioRun → Result ScenarioStore ScenarioError
insert_scenario_run m r =
    if key_taken run_key m.runs r.id
    then err constraint_failed
    else ok (record m { runs = m.runs ++ r ∷ [] })

unfoldable pub get_scenario_run : ScenarioStore → Text → Option ScenarioRun
get_scenario_run m run_id = find_row run_key m.runs run_id

unfoldable pub get_scenario_step : ScenarioStore → Text → Option ScenarioStep
get_scenario_step m step_id = find_row step_key m.steps step_id

abbrev pub of_run : Text → ScenarioStep → Bool
of_run run_id s = text_eq s.run_id run_id

abbrev pub steps_of : Text → List ScenarioStep → List ScenarioStep
steps_of run_id steps = keep (of_run run_id) steps

-- `COALESCE(MAX(ordinal), 0)`.
unfoldable pub max_ordinal : List ScenarioStep → ℕ
max_ordinal [] = 0
max_ordinal (s ∷ steps) = max s.ordinal (max_ordinal steps)

unfoldable pub next_scenario_step_ordinal : ScenarioStore → Text → ℕ
unfolding max_ordinal
next_scenario_step_ordinal m run_id = max_ordinal (steps_of run_id m.steps) + 1

unfoldable pub insert_scenario_step :
    ScenarioStore → ScenarioStep → Result ScenarioStore ScenarioError
insert_scenario_step m s =
    if key_taken step_key m.steps s.id || not (has_run m s.run_id)
    then err constraint_failed
    else ok (record m { steps = m.steps ++ s ∷ [] })

abbrev pub new_step : ScenarioStore → Text → Text → Text → Text → Option Text → Text → ScenarioStep
new_step m step_id run_id step_name step_kind command_line started_at = record {
  id = step_id;
  run_id = run_id;
  ordinal = next_scenario_step_ordinal m run_id;
  step_name = step_name;
  step_kind = step_kind;
  command_line = command_line;
  started_at = started_at;
  finished_at = none;
  status = codes "running";
  error_code = none;
}

-- The ordinal is read and the step inserted in one transaction.
unfoldable pub create_scenario_step :
    ScenarioStore
    → Text
    → Text
    → Text
    → Text
    → Option Text
    → Text
    → Result (ScenarioStep × ScenarioStore) ScenarioError
unfolding insert_scenario_step next_scenario_step_ordinal
create_scenario_step m step_id run_id step_name step_kind command_line started_at = do
  let s = new_step m step_id run_id step_name step_kind command_line started_at
  m' ← insert_scenario_step m s
  ok (s, m')

unfoldable pub insert_scenario_assertion :
    ScenarioStore → ScenarioAssertion → Result ScenarioStore ScenarioError
insert_scenario_assertion m a =
    if key_taken assertion_key m.assertions a.id || not (has_run m a.run_id && has_step m a.step_id)
    then err constraint_failed
    else ok (record m { assertions = m.assertions ++ a ∷ [] })

unfoldable pub insert_latency_sample :
    ScenarioStore → LatencySample → Result ScenarioStore ScenarioError
insert_latency_sample m s =
    if key_taken sample_key m.samples s.id || not (has_run m s.run_id && has_step m s.step_id)
    then err constraint_failed
    else ok (record m { samples = m.samples ++ s ∷ [] })

-- The table has a unique index on `run_id` beside its key.
unfoldable pub insert_environment_fingerprint :
    ScenarioStore → EnvironmentFingerprint → Result ScenarioStore ScenarioError
insert_environment_fingerprint m f =
    if key_taken fingerprint_key m.fingerprints f.id
      || (exists (λ g. text_eq g.run_id f.run_id) m.fingerprints || not (has_run m f.run_id))
    then err constraint_failed
    else ok (record m { fingerprints = m.fingerprints ++ f ∷ [] })

unfoldable pub update_scenario_run : ScenarioStore → ScenarioRun → ScenarioStore
update_scenario_run m r = record m { runs = update_row run_key m.runs r }

-- The reference is checked where a row is changed: `finish_step_record`, the only caller, keeps
-- `run_id`.
unfoldable pub update_scenario_step : ScenarioStore → ScenarioStep → ScenarioStore
update_scenario_step m s = record m { steps = update_row step_key m.steps s }
