-- ===== src/Failures/Operation.antt =====
-- Failures of operations on the runtime (crates/pengu-mesh-shared/src/failure.rs).
use pengu_mesh.Prelude.{Bool, false, ◌&&◌, Option, List, [], ◌∷◌, if◌then◌else◌, Text, codes}
use pengu_mesh.Failures.{
  Rule, says, says_any, starts_with, ends_with, apply_rules, or_diagnose, with_id,
}

pub record OperationFailureAttempt : Type 0 where
  pub operation : Text
  pub instance_id : Option Text
  pub holder_id : Option Text
  pub detail : Option Text

abbrev pub operation_rules : OperationFailureAttempt → Text → List Rule
operation_rules attempted reason =
    (says reason "unknown instance", codes "run pengu-mesh instance-list" ∷ [])
    ∷ (says reason "unknown run", codes "run pengu-mesh run-list --limit 25" ∷ [])
    ∷ (
      says reason "managed profile" && says reason "already exists",
      codes "run pengu-mesh profile-list"
          ∷ codes "retry profile-create with a different --name"
          ∷ [],
    )
    ∷ (
      says reason " is not installed",
      codes "run pengu-mesh-doctor to inspect browser installation readiness"
          ∷ codes
              "retry with --channel chrome-dev, --channel chrome, or --channel chromium after confirming the browser is installed"
          ∷ [],
    )
    ∷ (
      says reason "external attach is disabled by default",
      codes "set PENGU_MESH_ALLOW_EXTERNAL_ATTACH=1 before retrying instance-attach" ∷ [],
    )
    ∷ (
      says_any reason
          ("parse cdp url" ∷ "missing host in cdp url" ∷ "missing port in cdp url" ∷ []),
      codes "retry instance-attach with --cdp-url ws://127.0.0.1:<port>/devtools/browser/<id>" ∷ [],
    )
    ∷ (
      says_any reason (
          "connect CDP websocket" ∷ "GET http://" ∷ "timed out waiting for http://"
          ∷ "parse websocket URL" ∷ []),
      codes "verify the remote debugging endpoint is reachable before retrying instance-attach"
          ∷ [],
    )
    ∷ (
      says_any reason
          ("requires writer lease" ∷ "requires an explicit writer lease" ∷ "held by" ∷ []),
      with_id attempted.instance_id "run pengu-mesh lease-status --instance-id "
          "run pengu-mesh lease-status --instance-id <instance-id>",
    )
    ∷ (
      says reason "unknown tab",
      with_id attempted.instance_id "run pengu-mesh tab-list --instance-id "
          "run pengu-mesh instance-list, then run pengu-mesh tab-list --instance-id <instance-id>",
    )
    ∷ (
      says reason "recording would capture",
      codes "lower --duration-ms or raise --interval-ms before retrying recording-capture" ∷ [],
    )
    ∷ []

unfoldable pub operation_recovery : OperationFailureAttempt → Text → List Text
unfolding says_any starts_with ends_with apply_rules or_diagnose
operation_recovery attempted reason =
    or_diagnose (codes "run pengu-mesh diagnose to inspect host and runtime readiness")
      (apply_rules [] (operation_rules attempted reason))

unfoldable pub operation_retry_likely : Text → Bool
unfolding says_any starts_with ends_with
operation_retry_likely reason =
    if says_any reason (
      "unknown instance" ∷ "unknown run" ∷ "managed profile" ∷ "already exists"
      ∷ " is not installed" ∷ "external attach is disabled by default" ∷ "parse cdp url"
      ∷ "missing host in cdp url" ∷ "missing port in cdp url" ∷ "requires writer lease"
      ∷ "requires an explicit writer lease" ∷ "held by" ∷ "unknown tab" ∷ "recording would capture"
      ∷ [])
    then false
    else says_any reason (
        "timed out waiting for http://" ∷ "GET http://" ∷ "connect CDP websocket"
        ∷ "parse websocket URL" ∷ "browser app not running" ∷ [])

pub record OperationFailurePayload : Type 0 where
  pub operation : Text
  pub attempted : OperationFailureAttempt
  pub reason : Text
  pub recovery : List Text
  pub retry_likely : Bool

unfoldable pub operation_failure_payload :
    Text → OperationFailureAttempt → Text → OperationFailurePayload
unfolding operation_recovery operation_retry_likely
operation_failure_payload operation attempted reason = record {
  operation = operation;
  attempted = attempted;
  reason = reason;
  recovery = operation_recovery attempted reason;
  retry_likely = operation_retry_likely reason;
}
