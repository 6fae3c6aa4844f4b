-- ===== src/Failures/Artifact.antt =====
-- Failures on artifacts (crates/pengu-mesh-shared/src/failure.rs).
use pengu_mesh.Prelude.{
  Bool, false, Option, none, some, List, [], ◌∷◌, ◌++◌, if◌then◌else◌, String, Text, codes,
}
use pengu_mesh.Failures.{
  Rule, says, says_any, starts_with, ends_with, apply_rules, or_diagnose, for_each_id,
}

pub record ArtifactFailureAttempt : Type 0 where
  pub artifact_id : Option Text
  pub instance_id : Option Text
  pub run_id : Option Text
  pub action_kind : Option Text

abbrev pub artifact_item : Option Text → String → List Text
artifact_item none rest = (codes "treat the artifact" ++ codes rest) ∷ []
artifact_item (some id) rest = (codes "treat artifact " ++ id ++ codes rest) ∷ []

abbrev pub artifact_rules : ArtifactFailureAttempt → Text → List Rule
artifact_rules attempted reason =
    (
      says reason "unknown artifact",
      for_each_id attempted.run_id
            (λ id. (codes "run pengu-mesh artifact-list --run-id " ++ id) ∷ [])
          ++ for_each_id attempted.instance_id
              (λ id. (codes "run pengu-mesh artifact-list --instance-id " ++ id) ∷ [])
          ++ (codes "run pengu-mesh run-list --limit 25" ∷ []),
    )
    ∷ (
      says reason "artifact-list requires at least one filter",
      codes "retry with --instance-id <instance-id> and/or --run-id <run-id>" ∷ [],
    )
    ∷ (
      says reason "missing stored sha256 metadata",
      codes "capture a fresh artifact before running artifact-verify" ∷ [],
    )
    ∷ (
      says_any reason ("No such file" ∷ "missing artifact source" ∷ []),
      artifact_item attempted.artifact_id
          " as missing on disk and recreate it from the source capture",
    )
    ∷ (
      says reason "checksum mismatch",
      artifact_item attempted.artifact_id " as corrupted and recreate it from the source capture",
    )
    ∷ []

unfoldable pub artifact_recovery : ArtifactFailureAttempt → Text → List Text
unfolding says_any starts_with ends_with apply_rules or_diagnose
artifact_recovery attempted reason =
    or_diagnose (codes "run pengu-mesh diagnose to inspect host and runtime readiness")
      (apply_rules [] (artifact_rules attempted reason))

unfoldable pub artifact_retry_likely : Text → Bool
unfolding says_any starts_with ends_with
artifact_retry_likely reason =
    if says_any reason (
      "unknown artifact" ∷ "artifact-list requires at least one filter"
      ∷ "missing stored sha256 metadata" ∷ "No such file" ∷ "missing artifact source"
      ∷ "checksum mismatch" ∷ [])
    then false
    else says_any reason ("temporarily unavailable" ∷ "timed out" ∷ [])

pub record ArtifactFailurePayload : Type 0 where
  pub operation : Text
  pub attempted : ArtifactFailureAttempt
  pub reason : Text
  pub recovery : List Text
  pub retry_likely : Bool

unfoldable pub artifact_failure_payload :
    Text → ArtifactFailureAttempt → Text → ArtifactFailurePayload
unfolding artifact_recovery artifact_retry_likely
artifact_failure_payload operation attempted reason = record {
  operation = operation;
  attempted = attempted;
  reason = reason;
  recovery = artifact_recovery attempted reason;
  retry_likely = artifact_retry_likely reason;
}
