-- ===== src/Access/Keeps.antt =====
-- The validity of the runtime, operation by operation (crates/pengu-mesh-core/src/lib.rs).
use pengu_mesh.Prelude.{
  ℕ, ◌≡◌, refl, inl, inr, Bool, true, false, not, Option, none, some, List, [], ◌∷◌, arith,
  if◌then◌else◌, Bool-cases, Option-cases, Text, text_eq, find_first, is_empty, keep, Result, ok,
  err,
}
use pengu_mesh.Leases.{
  LeaseRecord, LeaseMode, writer, observer, LeaseError, is_active, acquire_lease,
  transfer_writer_lease, is_lease_of,
}
use pengu_mesh.Leases.Rows.{WellFormed, keep-WellFormed}
use pengu_mesh.Leases.Acquire.{acquire_lease-WellFormed}
use pengu_mesh.Leases.Transfer.{transfer_writer_lease-WellFormed}
use pengu_mesh.Access.{
  Runtime, AccessError, Times, LeaseAction, RequiredLease, LeaseAcquirePayload, lease_release,
  release_body, refuse_writer, recorded, record_event, discarded, serves, serves_already,
  required_mode, acquire, release, transfer, conflict, warning, is_known, clamp_ttl, wants_observer,
  lease_holder_label, default_lease_ttl_seconds, lease_status,
}
use pengu_mesh.Access.Operations.{
  build_instance_lease, acquire_stored, acquire_built, lease_acquire, transfer_stored,
  transfer_built, lease_transfer, access_with, require_instance_access,
}

-- No instance has two writers, and the table's keys hold.
abbrev pub IsValid : Runtime → Type 0
IsValid m = WellFormed m.leases

record_event-leases :
    (m : Runtime) (a : LeaseAction) (i : Text) {A : Type 0} (r : Result A AccessError)
    → (recorded a i (r, m)).1.leases ≡ m.leases
unfolding recorded
record_event-leases m a i r = ground arith

-- Both branches of a test.
if-IsValid :
    {R : Type 0} (b : Bool) (x y : R × Runtime)
    → IsValid x.1
    → IsValid y.1
    → IsValid (if b then x else y).1
if-IsValid true x y v w = v
if-IsValid false x y v w = w

recorded-IsValid :
    {A : Type 0} (a : LeaseAction) (i : Text) (r : Result A AccessError × Runtime)
    → IsValid r.1
    → IsValid (recorded a i r).1
recorded-IsValid a i r v = rw (record_event-leases r.1 a i r.0) v

discarded-IsValid :
    (r : Result LeaseAcquirePayload AccessError × Runtime) → IsValid r.1 → IsValid (discarded r).1
discarded-IsValid (ok a, m) v = v
discarded-IsValid (err e, m) v = v

release_body-IsValid :
    (m : Runtime) (i h : Text) (mode : Option LeaseMode) (t : Times)
    → IsValid m
    → IsValid (release_body m i h mode t).1
unfolding release_body
release_body-IsValid m i h mode t v = keep-WellFormed (is_active t.listed) _ (
    keep-WellFormed (λ l. not (is_lease_of i h mode l)) _
      (keep-WellFormed (is_active t.now) m.leases v))

-- `lease_release` keeps the runtime valid.
pub lease_release-IsValid :
    (m : Runtime) (i h : Text) (mode : Option LeaseMode) (t : Times)
    → IsValid m
    → IsValid (lease_release m i h mode t).1
unfolding lease_release
lease_release-IsValid m i h mode t v =
    if-IsValid (is_known m i) _ _
      (recorded-IsValid release i (release_body m i h mode t) (release_body-IsValid m i h mode t v))
      v

event_kept : (m : Runtime) (i : Text) → IsValid m → IsValid (record_event m conflict warning i)
unfolding record_event
event_kept m i v = elim (Bool-cases m.run_active) [ inl e ↦ rw e v | inr e ↦ rw e v ]

refuse_writer-IsValid :
    (m : Runtime) (i h : Text) (ls : List LeaseRecord) (o : Option LeaseRecord)
    → IsValid m
    → IsValid (refuse_writer m i h ls o).1
unfolding refuse_writer
refuse_writer-IsValid m i h ls none v = if-IsValid (not (is_empty ls)) _ _ (event_kept m i v) v
refuse_writer-IsValid m i h ls (some w) v =
    if-IsValid (text_eq w.holder_id h) _ _ v (event_kept m i v)

module _ (add_seconds : Text → ℕ → Option Text) where
  acquire_built-IsValid :
      (m : Runtime) (i : Text) (t : Times) (o : Option LeaseRecord)
      → IsValid m
      → IsValid (acquire_built add_seconds m i t o).1
  unfolding acquire_built
  acquire_built-IsValid m i t none v = v
  acquire_built-IsValid m i t (some a) v =
      go (acquire_lease m.leases a t.now) (acquire_lease-WellFormed m.leases a t.now v)
    where
      go :
          (r : Result Bool LeaseError × List LeaseRecord)
          → WellFormed r.1
          → IsValid (acquire_stored add_seconds m i t a r).1
      go (ok renewed, rows) w = keep-WellFormed (is_active t.listed) rows w
      go (err e, rows) w = w

  -- `lease_acquire` keeps the runtime valid.
  pub lease_acquire-IsValid :
      (m : Runtime) (i h : Text) (l : Option Text) (mode : LeaseMode) (ttl : ℕ) (t : Times)
      → IsValid m
      → IsValid (lease_acquire add_seconds m i h l mode ttl t).1
  unfolding lease_acquire
  lease_acquire-IsValid m i h l mode ttl t v =
      if-IsValid (is_known m i) _ _
        (recorded-IsValid acquire i _ (
          acquire_built-IsValid m i t (build_instance_lease add_seconds i h l mode ttl t.granted)
            v))
        v

  -- A lease that is built is one of its instance.
  pub build_instance_lease_lem :
      (i h : Text) (l : Option Text) (mode : LeaseMode) (ttl : ℕ) (g : Text) (a : LeaseRecord)
      → build_instance_lease add_seconds i h l mode ttl g ≡ some a
      → (a.resource_id ≡ i)
        × (a.holder_id ≡ h)
        × (a.mode ≡ mode)
        × (a.granted_at ≡ g)
        × (add_seconds g (clamp_ttl ttl) ≡ some a.expires_at)
  unfolding build_instance_lease
  build_instance_lease_lem i h l mode ttl g a e =
      elim (Option-cases (add_seconds g (clamp_ttl ttl))) [
        | inl n ↦ absurd (ground arith)
        | inr (x, n) ↦ ground arith
      ]

  transfer_built-IsValid :
      (m : Runtime) (i f : Text) (t : Times) (o : Option LeaseRecord)
      → ((a : LeaseRecord) → o ≡ some a → a.resource_id ≡ i)
      → IsValid m
      → IsValid (transfer_built add_seconds m i f t o).1
  unfolding transfer_built
  transfer_built-IsValid m i f t none of_i v = keep-WellFormed (is_active t.now) m.leases v
  transfer_built-IsValid m i f t (some a) of_i v =
      let live = keep (is_active t.now) m.leases in
      go (transfer_writer_lease live i f a t.now) (
        transfer_writer_lease-WellFormed live i f a t.now
          (keep-WellFormed (is_active t.now) m.leases v) (of_i a refl))
    where
      go :
          (r : Result (Unit {0}) LeaseError × List LeaseRecord)
          → WellFormed r.1
          → IsValid (transfer_stored add_seconds m i t a r).1
      go (ok _, rows) w = keep-WellFormed (is_active t.listed) rows w
      go (err e, rows) w = w

  -- `lease_transfer` keeps the runtime valid.
  pub lease_transfer-IsValid :
      (m : Runtime) (i f h : Text) (l : Option Text) (ttl : ℕ) (t : Times)
      → IsValid m
      → IsValid (lease_transfer add_seconds m i f h l ttl t).1
  unfolding lease_transfer
  lease_transfer-IsValid m i f h l ttl t v =
      if-IsValid (is_known m i) _ _
        (recorded-IsValid transfer i _ (
          transfer_built-IsValid m i f t
            (build_instance_lease add_seconds i h l writer ttl t.granted)
            (λ a e. (build_instance_lease_lem i h l writer ttl t.granted a e).0) v))
        v

  access_with-IsValid :
      (m : Runtime) (i h : Text) (r : RequiredLease) (ls : List LeaseRecord) (t : Times)
      → IsValid m
      → IsValid (access_with add_seconds m i h r ls t).1
  unfolding access_with
  access_with-IsValid m i h r ls t v =
      if-IsValid (serves_already r (find_first (serves h r) ls)) _ _ v (
        if-IsValid (is_empty ls) _ _
          (discarded-IsValid _ (
            lease_acquire-IsValid m i h (lease_holder_label m h) (required_mode r)
              default_lease_ttl_seconds t v))
          (if-IsValid (wants_observer r) _ _
            (discarded-IsValid _ (
              lease_acquire-IsValid m i h (lease_holder_label m h) observer
                default_lease_ttl_seconds t v))
            (refuse_writer-IsValid m i h ls _ v)))

  -- `require_instance_access` keeps the runtime valid.
  pub require_instance_access-IsValid :
      (m : Runtime) (i h : Text) (r : RequiredLease) (now : Text) (t : Times)
      → IsValid m
      → IsValid (require_instance_access add_seconds m i h r now t).1
  unfolding require_instance_access
  require_instance_access-IsValid m i h r now t v =
      access_with-IsValid (record m { leases = keep (is_active now) m.leases }) i h r _ t
        (keep-WellFormed (is_active now) m.leases v)

-- `lease_status` keeps the runtime valid.
pub lease_status-IsValid :
    (m : Runtime) (i : Option Text) (now : Text) → IsValid m → IsValid (lease_status m i now).1
unfolding lease_status
lease_status-IsValid m none now v = keep-WellFormed (is_active now) m.leases v
lease_status-IsValid m (some i) now v =
    if-IsValid (is_known m i) _ _ (keep-WellFormed (is_active now) m.leases v) v

-- The lease operations of the runtime, with their arguments and the times that they read.
pub data Call : Type 0 where
  asks : Option Text → Text → Call
  acquires : Text → Text → Option Text → LeaseMode → ℕ → Times → Call
  releases : Text → Text → Option LeaseMode → Times → Call
  transfers : Text → Text → Text → Option Text → ℕ → Times → Call
  accesses : Text → Text → RequiredLease → Text → Times → Call

module _ (add_seconds : Text → ℕ → Option Text) where
  unfoldable pub call : Runtime → Call → Runtime
  unfolding lease_status lease_acquire lease_release lease_transfer require_instance_access
  call m (asks i now) = (lease_status m i now).1
  call m (acquires i h label mode ttl t) = (lease_acquire add_seconds m i h label mode ttl t).1
  call m (releases i h mode t) = (lease_release m i h mode t).1
  call m (transfers i from to label ttl t) = (lease_transfer add_seconds m i from to label ttl t).1
  call m (accesses i h r now t) = (require_instance_access add_seconds m i h r now t).1

  unfoldable pub calls : Runtime → List Call → Runtime
  unfolding call
  calls m [] = m
  calls m (c ∷ cs) = calls (call m c) cs

  call-IsValid : (m : Runtime) (c : Call) → IsValid m → IsValid (call m c)
  unfolding call
  call-IsValid m (asks i now) v = lease_status-IsValid m i now v
  call-IsValid m (acquires i h label mode ttl t) v =
      lease_acquire-IsValid add_seconds m i h label mode ttl t v
  call-IsValid m (releases i h mode t) v = lease_release-IsValid m i h mode t v
  call-IsValid m (transfers i from to label ttl t) v =
      lease_transfer-IsValid add_seconds m i from to label ttl t v
  call-IsValid m (accesses i h r now t) v =
      require_instance_access-IsValid add_seconds m i h r now t v

  -- Whatever calls of `lease_status`, `lease_acquire`, `lease_release`, `lease_transfer` and
  -- `require_instance_access` are made from a valid runtime, with whatever arguments, in whatever
  -- order and at whatever times, no instance has two writer leases in the table, and its keys stay
  -- unique.
  pub calls-IsValid : (m : Runtime) (cs : List Call) → IsValid m → IsValid (calls m cs)
  unfolding calls
  calls-IsValid m [] v = v
  calls-IsValid m (c ∷ cs) v = calls-IsValid (call m c) cs (call-IsValid m c v)
