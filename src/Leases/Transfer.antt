-- ===== src/Leases/Transfer.antt =====
-- Handing a writer lease over, and giving leases back (crates/pengu-mesh-state/src/lib.rs).
use pengu_mesh.Prelude.{
  ◌≤◌, ◌↔◌, count_le_one, count-exists, count-zero, exists-All, Pairwise-mono, All-of-mem, ◌≡◌, sym,
  ap, subst, ◌∙◌, inl, inr, Bool, true, false, not, some, List, arith, Bool-cases, Text,
  text_eq_iff, keep, exists, count, All, Memᴰ, keep-mem, kept_passes, exists-mem, Result, ok, err,
}
use pengu_mesh.Leases.{
  LeaseRecord, writer, LeaseError, constraint_failed, no_active_writer, is_active, id_clash,
  upsert_lease, commit, upsert_then, transfer_writer_lease, is_lease_of,
}
use pengu_mesh.Leases.Rows.{
  both_writers, WellFormed, keep-WellFormed, Upserted, clash, updated, inserted, upsert_lease_lem,
  upsert-WellFormed, upsert-mem, OneWriter-unique,
}
use pengu_mesh.Leases.Exclusive.{active}

-- The rows of the holder's own writer lease of the resource.
abbrev pub own : Text → Text → LeaseRecord → Bool
own resource from = is_lease_of resource from (some writer)

-- Rows but for the holder's writer lease.
abbrev others : List LeaseRecord → Text → Text → List LeaseRecord
others rows resource from = keep (λ l. not (own resource from l)) rows

own_iff :
    (resource from : Text) (l : LeaseRecord)
    → (own resource from l ≡ true)
      ↔ ((l.resource_id ≡ resource) × (l.holder_id ≡ from) × (l.mode ≡ writer))
own_iff resource from l = (
  λ h. ground (arith, text_eq_iff l.resource_id resource, text_eq_iff l.holder_id from),
  λ h. ground (arith, text_eq_iff l.resource_id resource, text_eq_iff l.holder_id from),
)

-- A well-formed table has at most one such row.
own-count :
    (rows : List LeaseRecord) (resource from : Text)
    → WellFormed rows
    → count (own resource from) rows ≤ 1
own-count rows resource from w = count_le_one (own resource from) rows (
    Pairwise-mono _ _ rows
      (λ l m h. ground (
        arith,
        own_iff resource from l,
        own_iff resource from m,
        text_eq_iff m.resource_id l.resource_id,
      ))
      w.one_writer)

-- Once the writer of a resource is taken out, no writer of it is left.
others_no_writer :
    (rows : List LeaseRecord) (resource from : Text) (a : LeaseRecord)
    → WellFormed rows
    → exists (own resource from) rows ≡ true
    → a.resource_id ≡ resource
    → All (λ l. both_writers l a ≡ false) (others rows resource from)
others_no_writer rows resource from a w e r = All-of-mem _ (others rows resource from) λ l m.
    elim (Bool-cases (both_writers l a)) [
      | inr no_pair ↦ no_pair
      | inl pair ↦ absurd (gone l (keep-mem _ rows m) (kept_passes _ rows m) pair)
    ]
  where
    gone :
        (l : LeaseRecord)
        → Memᴰ l rows
        → not (own resource from l) ≡ true
        → both_writers l a ≡ true
        → ⊥
    gone l m kept pair =
        let (v, mv, is_own) = exists-mem (own resource from) rows e in
        let (rv, ov, ev) = (own_iff resource from v).0 is_own in
        let same : l ≡ v =
          OneWriter-unique rows w m mv (ground arith) ev
            (ground (arith, text_eq_iff a.resource_id l.resource_id)) in
        ground (arith, ap (own resource from) same)

-- How `transfer_writer_lease` ends: the holder has no active writer lease of the resource, another
-- row has the replacement's id, or the replacement takes the place of the holder's lease.
pub data Transferred (rows : List LeaseRecord) (resource from : Text) (a : LeaseRecord) (now : Text)
    : Result (Unit {0}) LeaseError × List LeaseRecord → Type 0 where
  missing :
      exists (own resource from) (active rows now) ≡ false
      → Transferred rows resource from a now (err (no_active_writer from), rows)
  id_taken :
      exists (own resource from) (active rows now) ≡ true
      → exists (id_clash a) (others (active rows now) resource from) ≡ true
      → Transferred rows resource from a now (err constraint_failed, rows)
  moved :
      (rows' : List LeaseRecord)
      → exists (own resource from) (active rows now) ≡ true
      → Upserted (others (active rows now) resource from) a (ok rows')
      → Transferred rows resource from a now (ok tt, rows')

module _ (rows : List LeaseRecord) (resource from : Text) (a : LeaseRecord) (now : Text) where
  upsert-Transferred :
      (r : Result (List LeaseRecord) LeaseError)
      → exists (own resource from) (active rows now) ≡ true
      → Upserted (others (active rows now) resource from) a r
      → Transferred rows resource from a now (commit rows (upsert_then tt r))
  upsert-Transferred _ e (clash c) = id_taken e c
  upsert-Transferred _ e (updated c u) = moved _ e (updated c u)
  upsert-Transferred _ e (inserted c u) = moved _ e (inserted c u)

  -- The holder of an active writer lease, and no other, hands it over; a refusal changes nothing.
  pub transfer_writer_lease_lem :
      WellFormed rows
      → Transferred rows resource from a now (transfer_writer_lease rows resource from a now)
  unfolding transfer_writer_lease
  transfer_writer_lease_lem w =
      let live = active rows now in
      elim (Bool-cases (exists (own resource from) live)) [
        | inl e ↦
            let one : count (own resource from) live ≡ 1 = omega (
              arith,
              own-count live resource from (keep-WellFormed (is_active now) rows w),
              count-exists (own resource from) live e,
            ) in
            rw one (
              upsert-Transferred (upsert_lease (others live resource from) a) e
                (upsert_lease_lem _ a))
        | inr e ↦ rw (count-zero (own resource from) live (exists-All _ live e)) (missing e)
      ]

-- A transfer keeps a well-formed table well formed, if the replacement is a lease of the
-- resource.
pub transfer_writer_lease-WellFormed :
    (rows : List LeaseRecord) (resource from : Text) (a : LeaseRecord) (now : Text)
    → WellFormed rows
    → a.resource_id ≡ resource
    → WellFormed (transfer_writer_lease rows resource from a now).1
transfer_writer_lease-WellFormed rows resource from a now w r =
    go (transfer_writer_lease rows resource from a now)
      (transfer_writer_lease_lem rows resource from a now w)
  where
    go :
        (t : Result (Unit {0}) LeaseError × List LeaseRecord)
        → Transferred rows resource from a now t
        → WellFormed t.1
    go _ (missing e) = w
    go _ (id_taken e c) = w
    go _ (moved rows' e u) =
        let live = keep-WellFormed (is_active now) rows w in
        upsert-WellFormed (others (active rows now) resource from) a (ok rows')
          (keep-WellFormed _ (active rows now) live) u
          (inr (others_no_writer (active rows now) resource from a live e r))

-- A transfer on a well-formed table, with a writer lease of the resource as the replacement,
-- succeeds only if the former holder had an active writer lease; after it the replacement is
-- the only writer lease of the resource.
pub transfer_writer_lease_exclusive :
    (rows rows' : List LeaseRecord) (resource from : Text) (a : LeaseRecord) (now : Text)
    → WellFormed rows
    → a.resource_id ≡ resource
    → a.mode ≡ writer
    → transfer_writer_lease rows resource from a now ≡ (ok tt, rows')
    → (exists (own resource from) (active rows now) ≡ true)
      × Memᴰ a rows'
      × ((b : LeaseRecord) → Memᴰ b rows' → b.mode ≡ writer → b.resource_id ≡ resource → b ≡ a)
transfer_writer_lease_exclusive rows rows' resource from a now w r e h =
    let (had, held) =
      go (transfer_writer_lease rows resource from a now)
        (transfer_writer_lease_lem rows resource from a now w) h in
    (had, held, λ b m eb er. OneWriter-unique rows' valid m held eb e (er ∙ sym r))
  where
    go :
        (t : Result (Unit {0}) LeaseError × List LeaseRecord)
        → Transferred rows resource from a now t
        → t ≡ (ok tt, rows')
        → (exists (own resource from) (active rows now) ≡ true) × Memᴰ a rows'
    go _ (missing d) q = cc
    go _ (id_taken d c) q = cc
    go _ (moved rows'' d u) q = (d, subst (Memᴰ a) (ap (λ t. t.1) q) (upsert-mem _ a rows'' u))

    valid : WellFormed rows'
    valid =
        subst WellFormed (ap (λ t. t.1) h)
          (transfer_writer_lease-WellFormed rows resource from a now w r)
