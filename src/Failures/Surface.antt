-- ===== src/Failures/Surface.antt =====
-- Failures on browser surfaces (crates/pengu-mesh-shared/src/failure.rs), whose items are pushed
-- without a test for repetition.
use pengu_mesh.Prelude.{
  Bool, false, Option, none, some, List, [], ◌∷◌, ◌++◌, if◌then◌else◌, Text, codes, is_empty,
}
use pengu_mesh.Failures.{Rule, says, says_any, fired}

-- The action and the channel are their names.
pub record BrowserSurfaceFailureAttempt : Type 0 where
  pub instance_id : Text
  pub surface_id : Option Text
  pub root_surface_id : Option Text
  pub action : Option Text
  pub execution_channel : Option Text
  pub allow_takeover : Option Bool

abbrev pub id_or : Option Text → Text → Text
id_or none default = default
id_or (some id) default = id

abbrev pub surface_rules : BrowserSurfaceFailureAttempt → Text → List Rule
surface_rules attempted reason =
    (
      says reason "requires accessibility permission",
      codes
            "run PENGU_MESH_CAPABILITY_GRANTS=host_access_setup pengu-mesh host-access-setup --mode apply --service accessibility"
          ∷ [],
    )
    ∷ (
      says reason "surface not found",
      (codes "run pengu-mesh browser-surface-list --instance-id " ++ attempted.instance_id) ∷ [],
    )
    ∷ (says reason "unknown instance", codes "run pengu-mesh instance-list" ∷ [])
    ∷ (
      says_any reason ("requires writer lease" ∷ "held by" ∷ []),
      (codes "run pengu-mesh lease-status --instance-id " ++ attempted.instance_id) ∷ [],
    )
    ∷ (
      says reason "browser app not running",
      (codes "restart or reattach the browser for instance "
            ++ attempted.instance_id
            ++ codes " before retrying browser-surface commands")
          ∷ [],
    )
    ∷ (
      says reason "surface action failed to focus target",
      (codes "rerun pengu-mesh browser-surface-list-actions --instance-id "
            ++ attempted.instance_id
            ++ codes " --surface-id "
            ++ id_or attempted.surface_id (codes "ax:0")
            ++ codes " to inspect safer fallback channels")
          ∷ [],
    )
    ∷ (says reason "set_value requires value", codes "retry the action with --value <text>" ∷ [])
    ∷ (
      says reason "unsupported execution channel",
      codes "rerun pengu-mesh browser-surface-list-actions to inspect supported execution channels"
          ∷ [],
    )
    ∷ []

unfoldable pub browser_surface_recovery : BrowserSurfaceFailureAttempt → Text → List Text
unfolding says_any fired
browser_surface_recovery attempted reason =
    let recovery = fired (surface_rules attempted reason) in
    if is_empty recovery
    then codes "run pengu-mesh diagnose to inspect host and browser readiness" ∷ []
    else recovery

unfoldable pub browser_surface_retry_likely : Text → Bool
unfolding says_any
browser_surface_retry_likely reason =
    if says_any reason (
      "surface not found" ∷ "requires accessibility permission" ∷ "unknown instance"
      ∷ "set_value requires value" ∷ "unsupported execution channel" ∷ [])
    then false
    else says_any reason (
        "browser app not running" ∷ "surface action failed to focus target"
        ∷ "timed out waiting for http://" ∷ [])

pub record BrowserSurfaceFailurePayload : Type 0 where
  pub operation : Text
  pub attempted : BrowserSurfaceFailureAttempt
  pub reason : Text
  pub recovery : List Text
  pub retry_likely : Bool

unfoldable pub browser_surface_failure_payload :
    Text → BrowserSurfaceFailureAttempt → Text → BrowserSurfaceFailurePayload
unfolding browser_surface_recovery browser_surface_retry_likely
browser_surface_failure_payload operation attempted reason = record {
  operation = operation;
  attempted = attempted;
  reason = reason;
  recovery = browser_surface_recovery attempted reason;
  retry_likely = browser_surface_retry_likely reason;
}
