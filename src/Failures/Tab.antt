-- ===== src/Failures/Tab.antt =====
-- Failures on tabs (crates/pengu-mesh-shared/src/failure.rs).
use pengu_mesh.Prelude.{
  Bool, false, ◌&&◌, ◌||◌, Option, List, [], ◌∷◌, ◌++◌, if◌then◌else◌, Text, codes,
}
use pengu_mesh.Failures.{
  Rule, says, says_any, starts_with, ends_with, apply_rules, or_diagnose, for_each_id, with_id,
}

pub record TabFailureAttempt : Type 0 where
  pub instance_id : Option Text
  pub tab_id : Option Text
  pub action_kind : Option Text

abbrev pub tab_rules : TabFailureAttempt → Text → List Rule
tab_rules attempted reason =
    (says reason "unknown instance", codes "run pengu-mesh instance-list" ∷ [])
    ∷ (
      says_any reason ("unknown tab" ∷ "after websocket refresh" ∷ []),
      with_id attempted.instance_id "run pengu-mesh tab-list --instance-id "
          "run pengu-mesh tab-list --instance-id <instance-id>",
    )
    ∷ (
      says_any reason ("requires writer lease" ∷ "held by" ∷ []),
      with_id attempted.instance_id "run pengu-mesh lease-status --instance-id "
          "run pengu-mesh lease-status --instance-id <instance-id>",
    )
    ∷ (says reason "navigate requires url", codes "retry the action with --url <target>" ∷ [])
    ∷ (says reason "press requires key", codes "retry the action with --key <key>" ∷ [])
    ∷ (
      says reason "requires ref or selector",
      codes "retry the action with --ref <node-ref> or --selector <css-selector>" ∷ [],
    )
    ∷ (says reason "requires text", codes "retry the action with --text <text>" ∷ [])
    ∷ (says reason "select requires value", codes "retry the action with --value <value>" ∷ [])
    ∷ (
      says_any reason ("selector not found" ∷ "invalid ref" ∷ [])
          || (starts_with reason (codes "ref e") && ends_with reason (codes " not found")),
      for_each_id attempted.tab_id (λ id.
          (codes "run pengu-mesh tab-snapshot --tab-id " ++ id)
          ∷ (codes "run pengu-mesh tab-text --tab-id " ++ id)
          ∷ []),
    )
    ∷ (
      says reason "navigation timed out",
      for_each_id attempted.tab_id
            (λ id. (codes "run pengu-mesh tab-snapshot --tab-id " ++ id) ∷ [])
          ++ for_each_id attempted.instance_id (λ instance_id.
            for_each_id attempted.tab_id (λ tab_id.
              (codes "run pengu-mesh tab-list-actions --instance-id "
                ++ instance_id
                ++ codes " --tab-id "
                ++ tab_id)
              ∷ [])),
    )
    ∷ (
      says_any reason (
          "Runtime.evaluate failed" ∷ "document has no root element"
          ∷ "requires an input, textarea, or select target" ∷ "select requires a select target"
          ∷ []),
      for_each_id attempted.tab_id
          (λ id. (codes "run pengu-mesh tab-snapshot --tab-id " ++ id) ∷ []),
    )
    ∷ (
      says reason "missing screenshot data",
      for_each_id attempted.tab_id (λ id.
          (codes "run pengu-mesh tab-snapshot --tab-id " ++ id)
          ∷ (codes "retry pengu-mesh tab-screenshot --tab-id " ++ id ++ codes " --full-page")
          ∷ []),
    )
    ∷ (
      says reason "missing PDF data",
      for_each_id attempted.tab_id (λ id.
          (codes "run pengu-mesh tab-screenshot --tab-id " ++ id ++ codes " --full-page")
          ∷ (codes "retry pengu-mesh tab-pdf --tab-id " ++ id)
          ∷ []),
    )
    ∷ []

unfoldable pub tab_recovery : TabFailureAttempt → Text → List Text
unfolding says_any starts_with ends_with apply_rules or_diagnose
tab_recovery attempted reason =
    or_diagnose (codes "run pengu-mesh diagnose to inspect host and browser readiness")
      (apply_rules [] (tab_rules attempted reason))

unfoldable pub tab_retry_likely : Text → Bool
unfolding says_any starts_with ends_with
tab_retry_likely reason =
    if says_any reason (
        "unknown instance" ∷ "unknown tab" ∷ "requires writer lease" ∷ "held by"
        ∷ "navigate requires url" ∷ "press requires key" ∷ "requires ref or selector"
        ∷ "requires text" ∷ "select requires value" ∷ "selector not found" ∷ "invalid ref"
        ∷ "missing screenshot data" ∷ "missing PDF data" ∷ [])
      || (starts_with reason (codes "ref e") && ends_with reason (codes " not found"))
    then false
    else says_any reason (
        "navigation timed out" ∷ "connect CDP websocket" ∷ "reconnect tab websocket"
        ∷ "CDP websocket closed" ∷ "timed out waiting for http://" ∷ [])

pub record TabFailurePayload : Type 0 where
  pub operation : Text
  pub attempted : TabFailureAttempt
  pub reason : Text
  pub recovery : List Text
  pub retry_likely : Bool

unfoldable pub tab_failure_payload : Text → TabFailureAttempt → Text → TabFailurePayload
unfolding tab_recovery tab_retry_likely
tab_failure_payload operation attempted reason = record {
  operation = operation;
  attempted = attempted;
  reason = reason;
  recovery = tab_recovery attempted reason;
  retry_likely = tab_retry_likely reason;
}
