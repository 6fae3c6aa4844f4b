-- ===== src/Access.antt =====
-- The lease operations of the runtime in crates/pengu-mesh-core/src/lib.rs: the data,
-- `lease_release` and `lease_status`; Operations has those that build leases.
-- What they read and change of `StageOneRuntime` is the record `Runtime`. Each reading of the clock
-- is an argument, and the arithmetic on times of the crate `time` is the parameter `add_seconds`.
pub mod Operations
pub mod Keeps
pub mod Granted
pub mod Collide
mod Examples
use pengu_mesh.Prelude.{
  ℕ, min, max, ◌-◌, Bool, true, false, not, ◌&&◌, ◌||◌, Option, none, some, List, [], ◌∷◌, ◌++◌,
  if◌then◌else◌, Text, text_eq, codes, exists, find_first, is_empty, Result, ok, err,
}
use pengu_mesh.StableId.{stable_id, lease, underscore}
use pengu_mesh.Leases.{
  LeaseRecord, LeaseMode, writer, observer, LeaseError, of_instance, mode_eq, mode_str,
  prune_expired_leases, list_leases, acquire_lease, delete_leases, transfer_writer_lease,
}

pub data EventLevel : Type 0 where
  info warning : EventLevel

pub data LeaseAction : Type 0 where
  acquire release transfer conflict : LeaseAction

-- An event of category "lease", without its message and its JSON data.
pub record LeaseEvent : Type 0 where
  pub action : LeaseAction
  pub level : EventLevel
  pub instance_id : Text

pub record Runtime : Type 0 where
  pub operator_id : Text
  pub entrypoint : Text
  pub instances : List Text
  pub leases : List LeaseRecord
  pub run_active : Bool
  pub events : List LeaseEvent

pub data AccessError : Type 0 where
  unknown_instance : Text → AccessError
  bad_time : AccessError
  refused_by_store : LeaseError → AccessError
  writer_elsewhere : Text → Text → AccessError  -- the writer, and until when
  observers_active : AccessError

pub data RequiredLease : Type 0 where
  needs_writer needs_observer : RequiredLease

-- What `utc_timestamp` returns at the steps of an operation, in order.
pub record Times : Type 0 where
  pub now : Text
  pub granted : Text
  pub listed : Text

unfoldable pub is_known : Runtime → Text → Bool
is_known m instance_id = exists (λ i. text_eq i instance_id) m.instances

-- `record_event`: nothing is written unless a run is active.
unfoldable pub record_event : Runtime → LeaseAction → EventLevel → Text → Runtime
record_event m action level instance_id =
    if m.run_active
    then record m {
      events =
          m.events ++ record { action = action; level = level; instance_id = instance_id } ∷ [];
    }
    else m

unfoldable pub active_leases :
    List LeaseRecord → Option Text → Text → List LeaseRecord × List LeaseRecord
unfolding prune_expired_leases
active_leases rows instance_id now =
    let pruned = (prune_expired_leases rows now).0 in (list_leases pruned instance_id now, pruned)

unfoldable pub lease_status :
    Runtime → Option Text → Text → Result (List LeaseRecord) AccessError × Runtime
unfolding active_leases is_known
lease_status m none now =
    let (listed, rows) = active_leases m.leases none now in (ok listed, record m { leases = rows })
lease_status m (some instance_id) now =
    let (listed, rows) = active_leases m.leases (some instance_id) now in
    if is_known m instance_id
    then (ok listed, record m { leases = rows })
    else (err (unknown_instance instance_id), m)

abbrev pub default_lease_ttl_seconds : ℕ
default_lease_ttl_seconds = 300

-- `ttl_seconds.clamp(15, 3600)`.
abbrev pub clamp_ttl : ℕ → ℕ
clamp_ttl ttl = min (max ttl 15) 3600

unfoldable pub lease_holder_label : Runtime → Text → Option Text
lease_holder_label m holder_id = if text_eq holder_id m.operator_id then some m.entrypoint else none

-- The lease, its instance's active leases, and whether it is a renewal.
pub record LeaseAcquirePayload : Type 0 where
  pub granted_lease : LeaseRecord
  pub active_now : List LeaseRecord
  pub renewed : Bool

pub record LeaseReleasePayload : Type 0 where
  pub released_count : ℕ
  pub active_now : List LeaseRecord

pub record LeaseTransferPayload : Type 0 where
  pub replacement : LeaseRecord
  pub active_now : List LeaseRecord

-- The result of an operation's body is recorded as an event, then returned.
abbrev pub outcome_level {ℓ} : {A : Type ℓ} → Result A AccessError → EventLevel
outcome_level (ok a) = info
outcome_level (err e) = warning

unfoldable pub recorded {ℓ} :
    {A : Type ℓ}
    → LeaseAction
    → Text
    → Result A AccessError × Runtime
    → Result A AccessError × Runtime
unfolding record_event
recorded action instance_id (r, m) = (r, record_event m action (outcome_level r) instance_id)

unfoldable pub release_body :
    Runtime
    → Text
    → Text
    → Option LeaseMode
    → Times
    → Result LeaseReleasePayload AccessError × Runtime
unfolding active_leases prune_expired_leases delete_leases
release_body m instance_id holder_id mode t =
    let pruned = (prune_expired_leases m.leases t.now).0 in
    let (rows, released) = delete_leases pruned instance_id holder_id mode in
    let (listed, rows') = active_leases rows (some instance_id) t.listed in
    (ok (record { released_count = released; active_now = listed }), record m { leases = rows' })

unfoldable pub lease_release :
    Runtime
    → Text
    → Text
    → Option LeaseMode
    → Times
    → Result LeaseReleasePayload AccessError × Runtime
unfolding release_body recorded is_known
lease_release m instance_id holder_id mode t =
    if is_known m instance_id
    then recorded release instance_id (release_body m instance_id holder_id mode t)
    else (err (unknown_instance instance_id), m)

-- `let _ = self.lease_acquire(...)?; return Ok(())`.
abbrev pub discarded :
    Result LeaseAcquirePayload AccessError × Runtime → Result (Unit {0}) AccessError × Runtime
discarded (ok a, m) = (ok tt, m)
discarded (err e, m) = (err e, m)

abbrev pub wants_observer : RequiredLease → Bool
wants_observer needs_writer = false
wants_observer needs_observer = true

abbrev pub required_mode : RequiredLease → LeaseMode
required_mode needs_writer = writer
required_mode needs_observer = observer

-- The holder's own lease that serves: a writer lease, or an observer lease where that is enough.
abbrev pub serves : Text → RequiredLease → LeaseRecord → Bool
serves holder_id required l =
    (text_eq l.holder_id holder_id && mode_eq l.mode writer)
    || (text_eq l.holder_id holder_id && (wants_observer required && mode_eq l.mode observer))

abbrev pub serves_already : RequiredLease → Option LeaseRecord → Bool
serves_already required none = false
serves_already required (some existing) = mode_eq existing.mode writer || wants_observer required

-- The end of the check, where a writer lease is wanted and leases are active.
unfoldable pub refuse_writer :
    Runtime
    → Text
    → Text
    → List LeaseRecord
    → Option LeaseRecord
    → Result (Unit {0}) AccessError × Runtime
unfolding record_event
refuse_writer m instance_id holder_id leases (some w) =
    if text_eq w.holder_id holder_id then (ok tt, m) else (
      err (writer_elsewhere w.holder_id w.expires_at),
      record_event m conflict warning instance_id,
    )
refuse_writer m instance_id holder_id leases none =
    if not (is_empty leases)
    then (err observers_active, record_event m conflict warning instance_id)
    else (ok tt, m)
