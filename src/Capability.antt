-- ===== src/Capability.antt =====
-- The capability gate: crates/pengu-mesh-shared/src/capability.rs, and the posture, the preflight,
-- the parsing of grants and the check of a capability in crates/pengu-mesh-core/src/lib.rs. The
-- reasons and hints that are formatted for people, and the descriptions, are left out.
pub mod Gate
pub mod Grants
mod Examples
use pengu_mesh.Prelude.{
  ℕ, suc, ◌+◌, Bool, true, false, not, ◌||◌, ◌&&◌, Option, none, some, List, [], ◌∷◌, ◌++◌, map,
  ◌==◌, leb, if◌then◌else◌, Text, text_eq, codes, length, is_empty, keep, count, find_first, every,
  exists, Result, ok, err, trim,
}

pub data CapabilityRiskTier : Type 0 where
  safe elevated dangerous : CapabilityRiskTier

pub record CapabilityDescriptor : Type 0 where
  pub name : Text
  pub risk_tier : CapabilityRiskTier
  pub requires_explicit_grant : Bool

pub record CapabilityGatePolicy : Type 0 where
  pub allow_safe : Bool
  pub allow_elevated : Bool
  pub allow_dangerous : Bool
  pub explicit_grants : List Text

abbrev pub default_policy : CapabilityGatePolicy
default_policy = record {
  allow_safe = true;
  allow_elevated = false;
  allow_dangerous = false;
  explicit_grants = [];
}

pub data CapabilityDecision : Type 0 where
  allowed denied : CapabilityDecision
  requires_grant : Text → CapabilityDecision

abbrev pub tier_allowed : CapabilityGatePolicy → CapabilityRiskTier → Bool
tier_allowed p safe = p.allow_safe
tier_allowed p elevated = p.allow_elevated
tier_allowed p dangerous = p.allow_dangerous

unfoldable pub evaluate : CapabilityGatePolicy → CapabilityDescriptor → CapabilityDecision
evaluate p c =
    if exists (λ g. text_eq g c.name) p.explicit_grants
    then allowed
    else if c.requires_explicit_grant
    then requires_grant c.name
    else if tier_allowed p c.risk_tier
    then allowed
    else denied

abbrev pub descriptor : CapabilityRiskTier → Bool → Text → CapabilityDescriptor
descriptor tier grant name = record {
  name = name;
  risk_tier = tier;
  requires_explicit_grant = grant;
}

abbrev pub safe_names : List Text
safe_names =
    codes "navigate"
    ∷ codes "snapshot"
    ∷ codes "text"
    ∷ codes "screenshot"
    ∷ codes "pdf"
    ∷ codes "artifact_list"
    ∷ codes "health"
    ∷ codes "diagnose"
    ∷ []

abbrev pub elevated_names : List Text
elevated_names =
    codes "evaluate"
    ∷ codes "click"
    ∷ codes "fill"
    ∷ codes "type"
    ∷ codes "press"
    ∷ codes "select"
    ∷ codes "instance_start"
    ∷ codes "tab_open"
    ∷ []

abbrev pub dangerous_names : List Text
dangerous_names = codes "host_access_setup" ∷ codes "browser_surface_action" ∷ []

unfoldable pub default_capabilities : List CapabilityDescriptor
default_capabilities =
    map (descriptor safe false) safe_names
    ++ map (descriptor elevated false) elevated_names
    ++ map (descriptor dangerous true) dangerous_names

abbrev pub is_allowed : CapabilityDecision → Bool
is_allowed allowed = true
is_allowed _ = false

pub record CapabilityPosture : Type 0 where
  pub total : ℕ
  pub safe_count : ℕ
  pub elevated_count : ℕ
  pub dangerous_count : ℕ
  pub allowed_count : ℕ
  pub denied_count : ℕ
  pub requires_grant_count : ℕ
  pub decisions : List CapabilityDecision

abbrev pub count_tier : CapabilityRiskTier → CapabilityPosture → CapabilityPosture
count_tier safe s = record s { safe_count = s.safe_count + 1 }
count_tier elevated s = record s { elevated_count = s.elevated_count + 1 }
count_tier dangerous s = record s { dangerous_count = s.dangerous_count + 1 }

abbrev pub count_decision : CapabilityDecision → CapabilityPosture → CapabilityPosture
count_decision allowed s = record s { allowed_count = s.allowed_count + 1 }
count_decision denied s = record s { denied_count = s.denied_count + 1 }
count_decision (requires_grant name) s = record s {
  requires_grant_count = s.requires_grant_count + 1;
}

-- The closure of `capability_posture` on the capabilities in order; `total` is set at the end.
unfoldable pub posture_from :
    CapabilityGatePolicy → CapabilityPosture → List CapabilityDescriptor → CapabilityPosture
unfolding evaluate
posture_from p s [] = s
posture_from p s (c ∷ cs) =
    let d = evaluate p c in
    let counted = count_decision d (count_tier c.risk_tier s) in
    posture_from p (record counted { decisions = s.decisions ++ d ∷ [] }) cs

abbrev pub no_posture : CapabilityPosture
no_posture = record {
  total = 0;
  safe_count = 0;
  elevated_count = 0;
  dangerous_count = 0;
  allowed_count = 0;
  denied_count = 0;
  requires_grant_count = 0;
  decisions = [];
}

unfoldable pub capability_posture : CapabilityGatePolicy → CapabilityPosture
unfolding posture_from default_capabilities
capability_posture p =
    let s = posture_from p no_posture default_capabilities in
    record s { total = length s.decisions }

pub data CapabilityError : Type 0 where
  unknown_capability : Text → CapabilityError
  denied_error : CapabilityError
  grant_required : Text → CapabilityError

pub record CapabilityPreflightEntry : Type 0 where
  pub entry_name : Text
  pub decision : CapabilityDecision
  pub entry_allowed : Bool

pub record CapabilityPreflightPayload : Type 0 where
  pub ready : Bool
  pub entries : List CapabilityPreflightEntry

unfoldable pub capability_preflight_entry :
    CapabilityGatePolicy → CapabilityDescriptor → CapabilityPreflightEntry
unfolding evaluate
capability_preflight_entry p c = record {
  entry_name = c.name;
  decision = evaluate p c;
  entry_allowed = is_allowed (evaluate p c);
}

unfoldable pub preflight_of :
    CapabilityGatePolicy → List CapabilityDescriptor → CapabilityPreflightPayload
unfolding capability_preflight_entry
preflight_of p cs =
    let entries = map (capability_preflight_entry p) cs in
    record { ready = every (λ e. e.entry_allowed) entries; entries = entries }

unfoldable pub capability_preflight :
    CapabilityGatePolicy → Option Text → Result CapabilityPreflightPayload CapabilityError
unfolding preflight_of default_capabilities
capability_preflight p none = ok (preflight_of p default_capabilities)
capability_preflight p (some name) =
    let retained = keep (λ c. text_eq c.name name) default_capabilities in
    if is_empty retained then err (unknown_capability name) else ok (preflight_of p retained)

abbrev pub as_result : CapabilityDecision → Result (Unit {0}) CapabilityError
as_result allowed = ok tt
as_result denied = err denied_error
as_result (requires_grant name) = err (grant_required name)

abbrev pub evaluate_found :
    CapabilityGatePolicy → Text → Option CapabilityDescriptor → Result (Unit {0}) CapabilityError
evaluate_found p name none = err (unknown_capability name)
evaluate_found p name (some c) = as_result (evaluate p c)

unfoldable pub require_capability_allowed_by_policy :
    Text → CapabilityGatePolicy → Result (Unit {0}) CapabilityError
unfolding default_capabilities
require_capability_allowed_by_policy name p =
    evaluate_found p name (find_first (λ c. text_eq c.name name) default_capabilities)

-- `filter_map` with the set of the grants seen.
unfoldable pub first_seen : List Text → List Text → List Text
first_seen seen [] = []
first_seen seen (g ∷ gs) =
    let rest = first_seen seen gs in
    let rest' = first_seen (g ∷ seen) gs in if exists (text_eq g) seen then rest else g ∷ rest'

-- `char::is_whitespace` is a parameter: it is the table of Unicode's White_Space.
module _ (is_whitespace : ℕ → Bool) where
  abbrev pub separates : ℕ → Bool
  separates c = c == b',' || (c == b';' || is_whitespace c)

  -- `split` at each separator: the pieces, the empty ones included. The first argument is the piece
  -- so far.
  unfoldable pub split_pieces : Text → Text → List Text
  split_pieces piece [] = piece ∷ []
  split_pieces piece (c ∷ s) =
      if separates c then piece ∷ split_pieces [] s else split_pieces (piece ++ c ∷ []) s

  unfoldable pub parse_capability_grants : Text → List Text
  unfolding split_pieces trim first_seen
  parse_capability_grants value =
      first_seen []
        (keep (λ g. not (is_empty g)) (map (trim is_whitespace) (split_pieces [] value)))
