-- ===== src/Failures/Examples.antt =====
-- Recoveries (crates/pengu-mesh-shared/src/failure.rs) of some reasons.
use pengu_mesh.Prelude.{◌≡◌, refl, true, false, none, some, [], ◌∷◌, Text, codes, text_eq}
use pengu_mesh.Failures.Operation.{
  OperationFailureAttempt, operation_rules, operation_recovery, operation_retry_likely,
}
use pengu_mesh.Failures.Artifact.{ArtifactFailureAttempt, artifact_rules, artifact_recovery}
use pengu_mesh.Failures.Tab.{TabFailureAttempt, tab_rules, tab_recovery}
use pengu_mesh.Failures.Laws.{Recovers, recovery_lem}

abbrev operation : OperationFailureAttempt
operation = record {
  operation = codes "stop";
  instance_id = some (codes "i");
  holder_id = none;
  detail = none;
}

abbrev artifact : ArtifactFailureAttempt
artifact = record {
  artifact_id = none;
  instance_id = some (codes "i");
  run_id = none;
  action_kind = none;
}

abbrev tab : TabFailureAttempt
tab = record { instance_id = none; tab_id = some (codes "t"); action_kind = none }

abbrev reason : Text
reason = codes "unknown tab; selector not found; missing screenshot data"

recovery_lem_example :
    Recovers
      (operation_rules operation reason)
      (codes "run pengu-mesh diagnose to inspect host and runtime readiness")
      (operation_recovery operation reason)
    × Recovers
        (artifact_rules artifact reason)
        (codes "run pengu-mesh diagnose to inspect host and runtime readiness")
        (artifact_recovery artifact reason)
    × Recovers
        (tab_rules tab reason)
        (codes "run pengu-mesh diagnose to inspect host and browser readiness")
        (tab_recovery tab reason)
recovery_lem_example = recovery_lem operation artifact tab reason

snapshot_once :
    tab_recovery tab reason
    ≡ codes "run pengu-mesh tab-list --instance-id <instance-id>"
      ∷ codes "run pengu-mesh tab-snapshot --tab-id t"
      ∷ codes "run pengu-mesh tab-text --tab-id t"
      ∷ codes "retry pengu-mesh tab-screenshot --tab-id t --full-page"
      ∷ []
unfolding tab_recovery text_eq
snapshot_once = refl

readiness_is_retried :
    operation_retry_likely (codes "timed out waiting for http://127.0.0.1:9222/json/version") ≡ true
unfolding operation_retry_likely
readiness_is_retried = refl

input_is_not_retried : operation_retry_likely (codes "parse cdp url") ≡ false
unfolding operation_retry_likely
input_is_not_retried = refl
