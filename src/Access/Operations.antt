-- ===== src/Access/Operations.antt =====
-- The lease operations of the runtime (crates/pengu-mesh-core/src/lib.rs) that build leases:
-- `lease_acquire`, `lease_transfer` and the check `require_instance_access`.
use pengu_mesh.Prelude.{
  ℕ, Bool, Option, none, some, List, ◌∷◌, ◌++◌, if◌then◌else◌, Text, find_first, is_empty, Result,
  ok, err,
}
use pengu_mesh.StableId.{stable_id, lease, underscore}
use pengu_mesh.Leases.{
  LeaseRecord, LeaseMode, writer, observer, LeaseError, of_instance, mode_eq, mode_str,
  prune_expired_leases, acquire_lease, transfer_writer_lease,
}
use pengu_mesh.Access.{
  Runtime, AccessError, RequiredLease, Times, is_known, active_leases, default_lease_ttl_seconds,
  clamp_ttl, lease_holder_label, LeaseAcquirePayload, LeaseTransferPayload, recorded, discarded,
  wants_observer, required_mode, serves, serves_already, refuse_writer, acquire, transfer,
  unknown_instance, bad_time, refused_by_store,
}

module _ (add_seconds : Text → ℕ → Option Text) where
  -- `none` where the granted time or the expiry is not in RFC 3339.
  unfoldable pub build_instance_lease :
      Text → Text → Option Text → LeaseMode → ℕ → Text → Option LeaseRecord
  unfolding stable_id
  build_instance_lease instance_id holder_id holder_label mode ttl granted_at =
      elim (add_seconds granted_at (clamp_ttl ttl)) [
        | none ↦ none
        | some expires_at ↦ some (record {
          id =
              stable_id lease (instance_id ++ underscore ∷ holder_id ++ underscore ∷ mode_str mode);
          resource_kind = of_instance;
          resource_id = instance_id;
          holder_id = holder_id;
          holder_label = holder_label;
          mode = mode;
          granted_at = granted_at;
          expires_at = expires_at;
          last_heartbeat_at = granted_at;
        })
      ]

  unfoldable pub acquire_stored :
      Runtime
      → Text
      → Times
      → LeaseRecord
      → Result Bool LeaseError × List LeaseRecord
      → Result LeaseAcquirePayload AccessError × Runtime
  unfolding active_leases
  acquire_stored m instance_id t a (err e, rows) =
      (err (refused_by_store e), record m { leases = rows })
  acquire_stored m instance_id t a (ok renewed, rows) =
      let (listed, rows') = active_leases rows (some instance_id) t.listed in
      (
        ok (record { granted_lease = a; active_now = listed; renewed = renewed }),
        record m { leases = rows' },
      )

  unfoldable pub acquire_built :
      Runtime → Text → Times → Option LeaseRecord → Result LeaseAcquirePayload AccessError × Runtime
  unfolding acquire_stored
  acquire_built m instance_id t none = (err bad_time, m)
  acquire_built m instance_id t (some a) =
      acquire_stored m instance_id t a (acquire_lease m.leases a t.now)

  unfoldable pub lease_acquire :
      Runtime
      → Text
      → Text
      → Option Text
      → LeaseMode
      → ℕ
      → Times
      → Result LeaseAcquirePayload AccessError × Runtime
  unfolding acquire_built build_instance_lease recorded is_known
  lease_acquire m instance_id holder_id holder_label mode ttl t =
      if is_known m instance_id
      then recorded acquire instance_id (
          acquire_built m instance_id t
            (build_instance_lease instance_id holder_id holder_label mode ttl t.granted))
      else (err (unknown_instance instance_id), m)

  unfoldable pub transfer_stored :
      Runtime
      → Text
      → Times
      → LeaseRecord
      → Result (Unit {0}) LeaseError × List LeaseRecord
      → Result LeaseTransferPayload AccessError × Runtime
  unfolding active_leases
  transfer_stored m instance_id t a (err e, rows) =
      (err (refused_by_store e), record m { leases = rows })
  transfer_stored m instance_id t a (ok _, rows) =
      let (listed, rows') = active_leases rows (some instance_id) t.listed in
      (ok (record { replacement = a; active_now = listed }), record m { leases = rows' })

  -- The expired leases are pruned before the replacement is built.
  unfoldable pub transfer_built :
      Runtime
      → Text
      → Text
      → Times
      → Option LeaseRecord
      → Result LeaseTransferPayload AccessError × Runtime
  unfolding transfer_stored prune_expired_leases
  transfer_built m instance_id from t built =
      let pruned = (prune_expired_leases m.leases t.now).0 in
      elim built [
        | none ↦ (err bad_time, record m { leases = pruned })
        | some a ↦
            transfer_stored m instance_id t a
              (transfer_writer_lease pruned instance_id from a t.now)
      ]

  unfoldable pub lease_transfer :
      Runtime
      → Text
      → Text
      → Text
      → Option Text
      → ℕ
      → Times
      → Result LeaseTransferPayload AccessError × Runtime
  unfolding transfer_built build_instance_lease recorded is_known
  lease_transfer m instance_id from to to_label ttl t =
      if is_known m instance_id
      then recorded transfer instance_id (
          transfer_built m instance_id from t
            (build_instance_lease instance_id to to_label writer ttl t.granted))
      else (err (unknown_instance instance_id), m)

  unfoldable pub access_with :
      Runtime
      → Text
      → Text
      → RequiredLease
      → List LeaseRecord
      → Times
      → Result (Unit {0}) AccessError × Runtime
  unfolding refuse_writer lease_acquire lease_holder_label
  access_with m instance_id holder_id required leases t =
      if serves_already required (find_first (serves holder_id required) leases)
      then (ok tt, m)
      else if is_empty leases
      then discarded (
          lease_acquire m instance_id holder_id (lease_holder_label m holder_id)
            (required_mode required) default_lease_ttl_seconds t)
      else if wants_observer required
      then discarded (
          lease_acquire m instance_id holder_id (lease_holder_label m holder_id) observer
            default_lease_ttl_seconds t)
      else refuse_writer m instance_id holder_id leases
          (find_first (λ l. mode_eq l.mode writer) leases)

  -- `require_instance_access`: the time at which the leases are listed, then those of `lease_acquire`.
  unfoldable pub require_instance_access :
      Runtime → Text → Text → RequiredLease → Text → Times → Result (Unit {0}) AccessError × Runtime
  unfolding access_with active_leases
  require_instance_access m instance_id holder_id required now t =
      let (listed, rows) = active_leases m.leases (some instance_id) now in
      access_with (record m { leases = rows }) instance_id holder_id required listed t
