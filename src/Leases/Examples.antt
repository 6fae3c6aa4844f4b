-- ===== src/Leases/Examples.antt =====
-- Runs of the leases table (crates/pengu-mesh-state/src/lib.rs).
use pengu_mesh.Prelude.{
  ◌≡◌, refl, true, false, none, some, List, [], ◌∷◌, if◌then◌else◌, Text, codes, text_eq, text_lt,
  text_ne, exists, Memᴰ, err,
}
use pengu_mesh.Leases.{
  LeaseRecord, LeaseMode, writer, observer, of_instance, held_by, same_identity, upsert_lease,
  acquire_lease, transfer_writer_lease,
}
use pengu_mesh.Leases.Rows.{WellFormed}
use pengu_mesh.Leases.Lookup.{lease_of, lease_of-upsert}
use pengu_mesh.Leases.Exclusive.{active}
use pengu_mesh.Leases.Acquire.{
  acquire_lease-WellFormed, acquire_lease_exclusive, acquire_lease_refused,
}
use pengu_mesh.Leases.Transfer.{own, transfer_writer_lease_exclusive}

abbrev lease_for : Text → Text → LeaseMode → Text → LeaseRecord
lease_for name holder mode until = record {
  id = name;
  resource_kind = of_instance;
  resource_id = codes "inst_1";
  holder_id = holder;
  holder_label = none;
  mode = mode;
  granted_at = codes "10:00";
  expires_at = until;
  last_heartbeat_at = codes "10:00";
}

abbrev alice : LeaseRecord
alice = lease_for (codes "l1") (codes "alice") writer (codes "10:05")

abbrev bob : LeaseRecord
bob = lease_for (codes "l2") (codes "bob") writer (codes "10:06")

abbrev watching : LeaseRecord
watching = lease_for (codes "l3") (codes "bob") observer (codes "10:06")

abbrev held : List LeaseRecord
held = alice ∷ []

abbrev early : Text
early = codes "10:01"

abbrev late : Text
late = codes "10:05"

held-WellFormed : WellFormed held
held-WellFormed = record {
  unique_ids = (tt, tt);
  unique_identities = (tt, tt);
  one_writer = (tt, tt);
}

acquire_lease-WellFormed_example : WellFormed (acquire_lease held watching early).1
acquire_lease-WellFormed_example = acquire_lease-WellFormed held watching early held-WellFormed

-- Once the writer's lease is over, another holder's takes its place.
acquire_lease_exclusive_example :
    Memᴰ bob (bob ∷ [])
    × ((b : LeaseRecord)
        → Memᴰ b (bob ∷ [])
        → b.mode ≡ writer
        → b.resource_id ≡ bob.resource_id
        → b ≡ bob)
unfolding acquire_lease text_lt text_eq same_identity
acquire_lease_exclusive_example =
    acquire_lease_exclusive held (bob ∷ []) bob late false held-WellFormed refl refl

acquire_lease_refused_example :
    acquire_lease held bob early ≡ (err (held_by (codes "alice") (codes "10:05")), held)
unfolding text_lt text_eq
acquire_lease_refused_example =
    acquire_lease_refused held bob alice early held-WellFormed (Memᴰ.head refl) refl refl refl refl
      (text_ne (codes "alice") (codes "bob") refl)

lease_of-upsert_example :
    lease_of (alice ∷ watching ∷ []) alice
    ≡ (if same_identity alice watching then some watching else lease_of held alice)
unfolding upsert_lease text_eq same_identity
lease_of-upsert_example = lease_of-upsert held (alice ∷ watching ∷ []) watching alice refl

transfer_writer_lease_exclusive_example :
    (exists (own (codes "inst_1") (codes "alice")) (active held early) ≡ true)
    × Memᴰ bob (bob ∷ [])
    × ((b : LeaseRecord)
        → Memᴰ b (bob ∷ [])
        → b.mode ≡ writer
        → b.resource_id ≡ codes "inst_1"
        → b ≡ bob)
unfolding transfer_writer_lease text_lt text_eq same_identity
transfer_writer_lease_exclusive_example =
    transfer_writer_lease_exclusive held (bob ∷ []) (codes "inst_1") (codes "alice") bob early
      held-WellFormed refl refl refl
