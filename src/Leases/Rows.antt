-- ===== src/Leases/Rows.antt =====
-- What the statements on the leases table (crates/pengu-mesh-state/src/lib.rs) keep of its rows.
use pengu_mesh.Prelude.{
  ◌≡◌, sym, ◌∙◌, ◌↔◌, ◌⊎◌, inl, inr, Bool, true, false, ◌&&◌, List, [], ◌∷◌, ◌++◌, map, arith,
  Bool-cases, text_eq, text_eq_iff, text_eq_sym, keep, exists, All, All-mono, All-both, Pairwise,
  Pairwise-unique, snoc-mem, Pairwise-keep, Pairwise-snoc, Pairwise-map, Pairwise-both,
  Pairwise-mono, exists-All, All-exists, Memᴰ, Result, ok, err,
}
use pengu_mesh.Leases.{
  LeaseRecord, writer, mode_eq, on_resource, same_identity, overwrite, id_clash, upsert_lease,
  LeaseError, constraint_failed,
}

-- Both rows are writer leases of one resource.
abbrev pub both_writers : LeaseRecord → LeaseRecord → Bool
both_writers l m =
    on_resource l.resource_kind l.resource_id m && (mode_eq l.mode writer && mode_eq m.mode writer)

abbrev pub OneWriter : List LeaseRecord → Type 0
OneWriter = Pairwise (λ l m. both_writers l m ≡ false)

abbrev pub UniqueIds : List LeaseRecord → Type 0
UniqueIds = Pairwise (λ l m. text_eq l.id m.id ≡ false)

abbrev pub UniqueIdentities : List LeaseRecord → Type 0
UniqueIdentities = Pairwise (λ l m. same_identity l m ≡ false)

-- The table's primary key and unique index hold, and no resource has two writers.
pub record WellFormed (rows : List LeaseRecord) : Type 0 where
  pub unique_ids : UniqueIds rows
  pub unique_identities : UniqueIdentities rows
  pub one_writer : OneWriter rows

pub keep-WellFormed :
    (p : LeaseRecord → Bool) (rows : List LeaseRecord) → WellFormed rows → WellFormed (keep p rows)
keep-WellFormed p rows w = record {
  unique_ids = Pairwise-keep _ p rows w.unique_ids;
  unique_identities = Pairwise-keep _ p rows w.unique_identities;
  one_writer = Pairwise-keep _ p rows w.one_writer;
}

-- `overwrite` leaves the identity alone.
overwrite_identity :
    (a l m : LeaseRecord) → same_identity (overwrite a l) (overwrite a m) ≡ same_identity l m
unfolding same_identity
overwrite_identity a l m = ground arith

overwrite_writers :
    (a l m : LeaseRecord) → both_writers (overwrite a l) (overwrite a m) ≡ both_writers l m
unfolding same_identity
overwrite_writers a l m = ground arith

pub same_identity_iff :
    (l m : LeaseRecord)
    → (same_identity l m ≡ true)
      ↔ ((l.resource_id ≡ m.resource_id) × (l.holder_id ≡ m.holder_id) × (l.mode ≡ m.mode))
unfolding same_identity
same_identity_iff l m = (
  λ h. ground (arith, text_eq_iff m.resource_id l.resource_id, text_eq_iff m.holder_id l.holder_id),
  λ h. ground (arith, text_eq_iff m.resource_id l.resource_id, text_eq_iff m.holder_id l.holder_id),
)

pub same_identity_sym : (l m : LeaseRecord) → same_identity l m ≡ same_identity m l
unfolding same_identity
same_identity_sym l m =
    ground (arith, text_eq_sym l.resource_id m.resource_id, text_eq_sym l.holder_id m.holder_id)

pub same_identity_euclid :
    (a l m : LeaseRecord)
    → same_identity a l ≡ true
    → same_identity a m ≡ true
    → same_identity l m ≡ true
same_identity_euclid a l m h k =
    let (r, o, e) = (same_identity_iff a l).0 h in
    let (r', o', e') = (same_identity_iff a m).0 k in
    (same_identity_iff l m).1 (sym r ∙ r', sym o ∙ o', sym e ∙ e')

overwrite_ids :
    (a l m : LeaseRecord)
    → id_clash a l ≡ false
    → id_clash a m ≡ false
    → (text_eq l.id m.id ≡ false) × (same_identity l m ≡ false)
    → text_eq (overwrite a l).id (overwrite a m).id ≡ false
overwrite_ids a l m cl cm (ids, h) =
    ground (arith, same_identity_euclid a l m, text_eq_sym l.id a.id, text_eq_sym m.id a.id)

abbrev Distinct : LeaseRecord → LeaseRecord → Type 0
Distinct l m = (text_eq l.id m.id ≡ false) × (same_identity l m ≡ false)

-- A statement that upserts a row keeps the ids and the identities unique. A new row keeps one writer
-- to a resource if no row is a writer of its resource.
module _ (rows : List LeaseRecord) (a : LeaseRecord) (w : WellFormed rows) where
  overwrite-WellFormed : All (λ l. id_clash a l ≡ false) rows → WellFormed (map (overwrite a) rows)
  overwrite-WellFormed no_clash = record {
    unique_ids =
        Pairwise-mono _ _ (map (overwrite a) rows) (λ l m h. h.0)
          (Pairwise-map Distinct (λ l. id_clash a l ≡ false) (overwrite a)
            (λ l m cl cm h. (overwrite_ids a l m cl cm h, rw (overwrite_identity a l m) h.1)) rows
            no_clash (Pairwise-both _ _ rows w.unique_ids w.unique_identities));
    unique_identities =
        Pairwise-map _ (λ l. id_clash a l ≡ false) (overwrite a)
          (λ l m _ _ h. rw (overwrite_identity a l m) h) rows no_clash w.unique_identities;
    one_writer =
        Pairwise-map _ (λ l. id_clash a l ≡ false) (overwrite a)
          (λ l m _ _ h. rw (overwrite_writers a l m) h) rows no_clash w.one_writer;
  }

  insert-WellFormed :
      All (λ l. id_clash a l ≡ false) rows
      → All (λ l. same_identity a l ≡ false) rows
      → All (λ l. both_writers l a ≡ false) rows
      → WellFormed (rows ++ a ∷ [])
  insert-WellFormed no_clash no_row no_writer = record {
    unique_ids =
        Pairwise-snoc _ rows a w.unique_ids
          (All-mono _ _ rows (λ l h. ground arith) (All-both _ _ rows no_clash no_row));
    unique_identities =
        Pairwise-snoc _ rows a w.unique_identities
          (All-mono _ _ rows (λ l h. rw (same_identity_sym l a) h) no_row);
    one_writer = Pairwise-snoc _ rows a w.one_writer no_writer;
  }

-- How an upsert ends: refused for its id, an update in place, or a new row.
pub data Upserted (rows : List LeaseRecord) (a : LeaseRecord)
    : Result (List LeaseRecord) LeaseError → Type 0 where
  clash : exists (id_clash a) rows ≡ true → Upserted rows a (err constraint_failed)
  updated :
      All (λ l. id_clash a l ≡ false) rows
      → exists (same_identity a) rows ≡ true
      → Upserted rows a (ok (map (overwrite a) rows))
  inserted :
      All (λ l. id_clash a l ≡ false) rows
      → All (λ l. same_identity a l ≡ false) rows
      → Upserted rows a (ok (rows ++ a ∷ []))

pub upsert_lease_lem :
    (rows : List LeaseRecord) (a : LeaseRecord) → Upserted rows a (upsert_lease rows a)
unfolding upsert_lease
upsert_lease_lem rows a = elim (Bool-cases (exists (id_clash a) rows)) [
  | inl e ↦ rw e (clash e)
  | inr e ↦ elim (Bool-cases (exists (same_identity a) rows)) [
    | inl f ↦ rw (e, f) (updated (exists-All _ rows e) f)
    | inr f ↦ rw (e, f) (inserted (exists-All _ rows e) (exists-All _ rows f))
  ]
]

-- The rows that a result leaves, or the old ones where it is an error.
abbrev pub rows_after : List LeaseRecord → Result (List LeaseRecord) LeaseError → List LeaseRecord
rows_after rows (ok rows') = rows'
rows_after rows (err e) = rows

-- An upsert keeps the table well formed, if it makes no second writer.
pub upsert-WellFormed :
    (rows : List LeaseRecord) (a : LeaseRecord) (r : Result (List LeaseRecord) LeaseError)
    → WellFormed rows
    → Upserted rows a r
    → (exists (same_identity a) rows ≡ true) ⊎ All (λ l. both_writers l a ≡ false) rows
    → WellFormed (rows_after rows r)
upsert-WellFormed rows a _ w (clash e) alone = w
upsert-WellFormed rows a _ w (updated no_clash e) alone = overwrite-WellFormed rows a w no_clash
upsert-WellFormed rows a _ w (inserted no_clash no_row) (inl e) =
    absurd (ground (arith, All-exists (same_identity a) rows no_row))
upsert-WellFormed rows a _ w (inserted no_clash no_row) (inr alone) =
    insert-WellFormed rows a w no_clash no_row alone

-- The overwritten row is the new one.
pub overwrite_self : (a l : LeaseRecord) → same_identity a l ≡ true → overwrite a l ≡ a
overwrite_self a l h = let (r, o, e) = (same_identity_iff a l).0 h in ground arith

pub overwrite-Mem :
    (a : LeaseRecord) (rows : List LeaseRecord)
    → exists (same_identity a) rows ≡ true
    → Memᴰ a (map (overwrite a) rows)
overwrite-Mem a [] h = cc
overwrite-Mem a (l ∷ ls) h = elim (Bool-cases (same_identity a l)) [
  | inl e ↦ Memᴰ.head (sym (overwrite_self a l e))
  | inr e ↦ Memᴰ.tail (overwrite-Mem a ls (ground arith))
]

-- A row that an upsert wrote is in the table.
pub upsert-mem :
    (rows : List LeaseRecord) (a : LeaseRecord) (rows' : List LeaseRecord)
    → Upserted rows a (ok rows')
    → Memᴰ a rows'
upsert-mem rows a _ (updated n e) = overwrite-Mem a rows e
upsert-mem rows a _ (inserted n e) = snoc-mem a rows

-- Two writers of one resource in a well-formed table are one row.
pub OneWriter-unique :
    (rows : List LeaseRecord) {l m : LeaseRecord}
    → WellFormed rows
    → Memᴰ l rows
    → Memᴰ m rows
    → l.mode ≡ writer
    → m.mode ≡ writer
    → l.resource_id ≡ m.resource_id
    → l ≡ m
OneWriter-unique rows {l} {m} w ml mm wl wm e =
    Pairwise-unique both_writers rows w.one_writer ml mm
      (ground (arith, text_eq_iff m.resource_id l.resource_id))
      (ground (arith, text_eq_iff l.resource_id m.resource_id))
