-- ===== src/Leases/Exclusive.antt =====
-- The ways in which `acquire_lease` (crates/pengu-mesh-state/src/lib.rs) ends.
use pengu_mesh.Prelude.{
  ◌≡◌, ◌≢◌, refl, sym, subst, ◌∙◌, ◌⊎◌, inl, inr, Bool, true, false, ◌&&◌, Option, none, some, List,
  [], ◌∷◌, arith, Bool-cases, Text, text_eq, text_eq_iff, text_eq_sym, text_ne, text_lt, keep,
  exists, All, All-mono, All-both, Memᴰ, keep_passes, keep-nil, keep-mem, kept_passes, mem-exists,
  Result, ok, err,
}
use pengu_mesh.Leases.{
  LeaseRecord, LeaseMode, writer, observer, LeaseError, held_by, constraint_failed, is_active,
  same_identity, id_clash, upsert_lease, earliest, earlier, is_writer_of, commit, upsert_then,
  acquire_pruned, active_writer, acquire_lease,
}
use pengu_mesh.Leases.Rows.{
  both_writers, Upserted, clash, updated, inserted, upsert_lease_lem, same_identity_iff,
}

earlier-mem :
    (l : LeaseRecord) (ls : List LeaseRecord) (o : Option LeaseRecord)
    → ((m : LeaseRecord) → o ≡ some m → Memᴰ m ls)
    → Memᴰ (earlier l o) (l ∷ ls)
earlier-mem l ls none h = Memᴰ.head refl
earlier-mem l ls (some m) h = elim (Bool-cases (text_lt m.granted_at l.granted_at)) [
  | inl e ↦ rw e (Memᴰ.tail (h m refl))
  | inr e ↦ rw e (Memᴰ.head refl)
]

earliest-mem : (ls : List LeaseRecord) (w : LeaseRecord) → earliest ls ≡ some w → Memᴰ w ls
earliest-mem [] w h = cc
earliest-mem (l ∷ ls) w h =
    subst (λ v. Memᴰ v (l ∷ ls)) (some_eq h) (earlier-mem l ls (earliest ls) (earliest-mem ls))
  where
    some_eq : some (earlier l (earliest ls)) ≡ some w → earlier l (earliest ls) ≡ w
    some_eq e = cc

earliest-nil : (ls : List LeaseRecord) → earliest ls ≡ none → ls ≡ []
earliest-nil [] h = refl
earliest-nil (l ∷ ls) h = cc

-- The rows that are still active.
abbrev pub active : List LeaseRecord → Text → List LeaseRecord
active rows now = keep (is_active now) rows

mode_cases : (m : LeaseMode) → (m ≡ writer) ⊎ (m ≡ observer)
mode_cases writer = inl refl
mode_cases observer = inr refl

-- No active writer of another holder stands in the way.
no_writer :
    (rows : List LeaseRecord) (a : LeaseRecord) (now : Text)
    → active_writer (active rows now) a now ≡ none
    → All (λ l. both_writers l a ≡ false) (active rows now)
no_writer rows a now h = elim (mode_cases a.mode) [
  | inl e ↦
      All-mono _ _ (active rows now) (λ l p. writer_on l p.0 p.1 e)
        (All-both _ _ (active rows now) (keep_passes (is_active now) rows)
          (keep-nil _ (active rows now) (earliest-nil _ (active_writer_is e h))))
  | inr e ↦ All-mono _ _ (active rows now) (λ l p. ground arith) (keep_passes (is_active now) rows)
]
  where
    writer_on :
        (l : LeaseRecord)
        → is_active now l ≡ true
        → is_writer_of a.resource_kind a.resource_id now l ≡ false
        → a.mode ≡ writer
        → both_writers l a ≡ false
    writer_on l p q e = ground (arith, text_eq_sym l.resource_id a.resource_id)

    active_writer_is :
        a.mode ≡ writer
        → active_writer (active rows now) a now ≡ none
        → earliest (keep (is_writer_of a.resource_kind a.resource_id now) (active rows now)) ≡ none
    active_writer_is e h = ground arith

own_writer :
    (rows : List LeaseRecord) (a w : LeaseRecord) (now : Text)
    → active_writer (active rows now) a now ≡ some w
    → (a.mode ≡ writer)
      × Memᴰ w (active rows now)
      × (w.mode ≡ writer)
      × (w.resource_id ≡ a.resource_id)
own_writer rows a w now h = elim (mode_cases a.mode) [
  | inl e ↦
      let m : Memᴰ w (keep (is_writer_of a.resource_kind a.resource_id now) (active rows now)) =
        earliest-mem _ w (ground arith) in
      let passes : is_writer_of a.resource_kind a.resource_id now w ≡ true =
        kept_passes _ (active rows now) m in
      (
        e,
        keep-mem _ (active rows now) m,
        ground arith,
        ground (arith, text_eq_iff w.resource_id a.resource_id),
      )
  | inr e ↦ absurd (ground arith)
]

-- The active row of the lease's identity, or no active writer of the resource beside it.
abbrev pub Alone : List LeaseRecord → LeaseRecord → Text → Type 0
Alone rows a now =
    (exists (same_identity a) (active rows now) ≡ true)
    ⊎ All (λ l. both_writers l a ≡ false) (active rows now)

-- How `acquire_lease` ends, on the rows still active: another holder writes to the resource, another
-- row has the id, or the row is upserted with no other writer of the resource.
pub data Acquired (rows : List LeaseRecord) (a : LeaseRecord) (now : Text)
    : Result Bool LeaseError × List LeaseRecord → Type 0 where
  refused :
      (w : LeaseRecord)
      → a.mode ≡ writer
      → Memᴰ w (active rows now)
      → w.mode ≡ writer
      → w.resource_id ≡ a.resource_id
      → w.holder_id ≢ a.holder_id
      → Acquired rows a now (err (held_by w.holder_id w.expires_at), rows)
  id_taken :
      exists (id_clash a) (active rows now) ≡ true
      → Alone rows a now
      → Acquired rows a now (err constraint_failed, rows)
  granted :
      (rows' : List LeaseRecord) (renewed : Bool)
      → renewed ≡ exists (λ l. same_identity a l && is_active now l) (active rows now)
      → Alone rows a now
      → Upserted (active rows now) a (ok rows')
      → Acquired rows a now (ok renewed, rows')

module _ (rows : List LeaseRecord) (a : LeaseRecord) (now : Text) where
  upsert-Acquired :
      (renewed : Bool) (r : Result (List LeaseRecord) LeaseError)
      → renewed ≡ exists (λ l. same_identity a l && is_active now l) (active rows now)
      → Alone rows a now
      → Upserted (active rows now) a r
      → Acquired rows a now (commit rows (upsert_then renewed r))
  upsert-Acquired renewed _ n alone (clash e) = id_taken e alone
  upsert-Acquired renewed _ n alone (updated c e) = granted _ renewed n alone (updated c e)
  upsert-Acquired renewed _ n alone (inserted c e) = granted _ renewed n alone (inserted c e)

  acquire_pruned-Acquired :
      (renewed : Bool) (o : Option LeaseRecord)
      → renewed ≡ exists (λ l. same_identity a l && is_active now l) (active rows now)
      → active_writer (active rows now) a now ≡ o
      → Acquired rows a now (commit rows (acquire_pruned (active rows now) a renewed o))
  unfolding acquire_pruned
  acquire_pruned-Acquired renewed none n h =
      upsert-Acquired renewed (upsert_lease (active rows now) a) n (inr (no_writer rows a now h))
        (upsert_lease_lem (active rows now) a)
  acquire_pruned-Acquired renewed (some w) n h =
      let (e, m, ew, er) = own_writer rows a w now h in
      elim (Bool-cases (text_eq w.holder_id a.holder_id)) [
        | inl same ↦ rw same (
            upsert-Acquired renewed (upsert_lease (active rows now) a) n
              (inl (
                mem-exists (same_identity a) (active rows now) m (
                  (same_identity_iff a w).1
                    (sym er, sym ((text_eq_iff w.holder_id a.holder_id).0 same), e ∙ sym ew))))
              (upsert_lease_lem (active rows now) a))
        | inr other ↦ rw other (refused w e m ew er (text_ne w.holder_id a.holder_id other))
      ]

  pub acquire_lease_lem : Acquired rows a now (acquire_lease rows a now)
  unfolding acquire_lease
  acquire_lease_lem = acquire_pruned-Acquired _ (active_writer (active rows now) a now) refl refl
