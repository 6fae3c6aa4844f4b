-- ===== src/Access/Examples.antt =====
-- Runs of the runtime's lease operations (crates/pengu-mesh-core/src/lib.rs), on a clock whose times
-- are one character.
use pengu_mesh.Prelude.{
  ℕ, ◌+◌, ◌≡◌, refl, true, Option, none, some, List, [], ◌∷◌, map, arith, Text, codes, text_eq,
  text_lt, Memᴰ, err,
}
use pengu_mesh.Leases.{
  LeaseRecord, list_leases, writer, observer, of_instance, acquire_lease, same_identity,
  constraint_failed, transfer_writer_lease,
}
use pengu_mesh.Access.{Runtime, Times, acquire, info, needs_writer, clamp_ttl}
use pengu_mesh.Access.Operations.{build_instance_lease, require_instance_access}
use pengu_mesh.Access.Keeps.{
  IsValid, Call, asks, acquires, transfers, accesses, calls, calls-IsValid,
}
use pengu_mesh.Access.Granted.{Holds, OnlyWriter, require_instance_access_exclusive}
use pengu_mesh.Access.Collide.{colliding_holder_refused}

abbrev add_clock : Text → ℕ → Option Text
add_clock (n ∷ []) seconds = some ((n + seconds) ∷ [])
add_clock _ seconds = none

abbrev start : Runtime
start = record {
  operator_id = codes "operator";
  entrypoint = codes "cli";
  instances = codes "inst_1" ∷ [];
  leases = [];
  run_active = true;
  events = [];
}

abbrev at_ten : Times
at_ten = record { now = 10 ∷ []; granted = 10 ∷ []; listed = 10 ∷ [] }

start-IsValid : IsValid start
start-IsValid = record { unique_ids = tt; unique_identities = tt; one_writer = tt }

abbrev history : List Call
history =
    acquires (codes "inst_1") (codes "alice") (some (codes "cli")) writer 60 at_ten
    ∷ accesses (codes "inst_1") (codes "bob") needs_writer (11 ∷ []) at_ten
    ∷ transfers (codes "inst_1") (codes "alice") (codes "bob") none 60 at_ten
    ∷ asks (some (codes "inst_1")) (12 ∷ [])
    ∷ []

-- Once the calls are made, the writer lease is the one that was transferred.
transferred : map (λ l. l.holder_id) (calls add_clock start history).leases ≡ codes "bob" ∷ []
unfolding calls list_leases text_eq acquire_lease text_lt transfer_writer_lease
transferred = refl

calls-IsValid_example : IsValid (calls add_clock start history)
calls-IsValid_example = calls-IsValid add_clock start history start-IsValid

ten_outlives :
    (ttl : ℕ) (x : Text) → add_clock (10 ∷ []) (clamp_ttl ttl) ≡ some x → text_lt (10 ∷ []) x ≡ true
unfolding text_lt
ten_outlives ttl x e = ground arith

abbrev granted_to : Text → LeaseRecord
granted_to holder = record {
  id = codes "lease_inst_1_alice_writer";
  resource_kind = of_instance;
  resource_id = codes "inst_1";
  holder_id = holder;
  holder_label = none;
  mode = writer;
  granted_at = 10 ∷ [];
  expires_at = 310 ∷ [];
  last_heartbeat_at = 10 ∷ [];
}

abbrev granted_access : Runtime
granted_access = record start {
  leases = granted_to (codes "alice") ∷ [];
  events = record { action = acquire; level = info; instance_id = codes "inst_1" } ∷ [];
}

require_instance_access_exclusive_example :
    Holds (codes "inst_1") (codes "alice") granted_access.leases
    × OnlyWriter (codes "inst_1") (codes "alice") granted_access.leases
unfolding require_instance_access text_lt text_eq same_identity list_leases acquire_lease
require_instance_access_exclusive_example =
    require_instance_access_exclusive add_clock at_ten ten_outlives start granted_access
      (codes "inst_1") (codes "alice") (10 ∷ []) start-IsValid refl

abbrev observing : Text → Text → LeaseRecord
observing name holder = record (granted_to holder) {
  id = name;
  mode = observer;
  expires_at = 70 ∷ [];
}

abbrev dashed : LeaseRecord
dashed = observing (codes "lease_inst_1_agent_a_observer") (codes "agent-a")

abbrev dotted : LeaseRecord
dotted = observing (codes "lease_inst_1_agent_a_observer") (codes "agent.a")

colliding_holder_refused_example :
    acquire_lease (dashed ∷ []) dotted (11 ∷ []) ≡ (err constraint_failed, dashed ∷ [])
unfolding build_instance_lease text_lt
colliding_holder_refused_example =
    colliding_holder_refused add_clock (dashed ∷ []) (codes "inst_1") (codes "agent") (codes "a")
      b'-' b'.' none none 60 60 (10 ∷ []) (10 ∷ []) (11 ∷ []) dashed dotted refl refl (omega arith)
      refl refl (Memᴰ.head refl) refl
