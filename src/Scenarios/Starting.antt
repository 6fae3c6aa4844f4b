-- ===== src/Scenarios/Starting.antt =====
-- The start of a run by crates/pengu-mesh-core/src/scenario_recorder.rs. What the commands that
-- describe the host say is an argument.
use pengu_mesh.Prelude.{ℕ, Bool, Option, none, some, Text, codes, Result, ok, err, ◌>>◌, trim}
use pengu_mesh.StableId.{stable_id, scenario_run, environment_fingerprint}
use pengu_mesh.Scenarios.{
  ScenarioRun, EnvironmentFingerprint, ScenarioStore, ScenarioError, insert_scenario_run,
  insert_environment_fingerprint,
}
use pengu_mesh.Scenarios.Checks.{ensure_present}

-- What the commands `uname`, `rustc`, `git` and the installed browsers say.
pub record Environment : Type 0 where
  pub root_dir : Text
  pub git_commit : Option Text
  pub git_branch : Option Text
  pub system : Text
  pub machine : Text
  pub os_version : Option Text
  pub rust_version : Option Text
  pub cargo_version : Option Text
  pub chrome_channel : Option Text
  pub chrome_version : Option Text

unfoldable pub capture_environment_fingerprint : Environment → Text → Text → EnvironmentFingerprint
capture_environment_fingerprint e run_id suffix = record {
  id = stable_id environment_fingerprint suffix;
  run_id = run_id;
  platform = e.system;
  arch = e.machine;
  os_version = e.os_version;
  rust_version = e.rust_version;
  cargo_version = e.cargo_version;
  chrome_channel = e.chrome_channel;
  chrome_version = e.chrome_version;
}

module _ (is_whitespace : ℕ → Bool) where
  abbrev pub new_run : Environment → Text → Text → Text → Text → Text → Text → ScenarioRun
  new_run e name family version surface suffix now = record {
    id = stable_id scenario_run suffix;
    scenario_name = trim is_whitespace name;
    scenario_family = trim is_whitespace family;
    scenario_version = trim is_whitespace version;
    tool_surface = trim is_whitespace surface;
    runtime_root = some e.root_dir;
    commit_sha = e.git_commit;
    branch_name = e.git_branch;
    platform = e.system;
    started_at = now;
    finished_at = none;
    status = codes "running";
    summary_path = none;
  }

  -- The error path of a statement leaves the store as it is.
  abbrev pub store_fingerprint :
      ScenarioRun
      → ScenarioStore
      → Result ScenarioStore ScenarioError
      → Result ScenarioRun ScenarioError × ScenarioStore
  store_fingerprint r m (ok m') = (ok r, m')
  store_fingerprint r m (err e) = (err e, m)

  abbrev pub store_run :
      ScenarioRun
      → EnvironmentFingerprint
      → ScenarioStore
      → Result ScenarioStore ScenarioError
      → Result ScenarioRun ScenarioError × ScenarioStore
  store_run r f m (ok m') = store_fingerprint r m' (insert_environment_fingerprint m' f)
  store_run r f m (err e) = (err e, m)

  abbrev pub checked_run :
      ScenarioRun
      → EnvironmentFingerprint
      → ScenarioStore
      → Result (Unit {0}) ScenarioError
      → Result ScenarioRun ScenarioError × ScenarioStore
  checked_run r f m (ok _) = store_run r f m (insert_scenario_run m r)
  checked_run r f m (err e) = (err e, m)

  abbrev pub run_fields : Text → Text → Text → Text → Result (Unit {0}) ScenarioError
  run_fields name family version surface = do
    ensure_present is_whitespace name
    ensure_present is_whitespace family
    ensure_present is_whitespace version
    ensure_present is_whitespace surface

  -- `ScenarioRecorder::new`, with the suffixes of the run and of its fingerprint.
  unfoldable pub new_recorder :
      ScenarioStore
      → Environment
      → Text
      → Text
      → Text
      → Text
      → Text
      → Text
      → Text
      → Result ScenarioRun ScenarioError × ScenarioStore
  unfolding insert_scenario_run insert_environment_fingerprint capture_environment_fingerprint
  new_recorder m e name family version surface suffix suffix' now =
      let r = new_run e name family version surface suffix now in
      checked_run r (capture_environment_fingerprint e r.id suffix') m
        (run_fields name family version surface)
