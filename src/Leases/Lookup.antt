-- ===== src/Leases/Lookup.antt =====
-- The leases table (crates/pengu-mesh-state/src/lib.rs) as a map from identities to leases.
use pengu_mesh.Prelude.{
  ◌≡◌, refl, ◌⊎◌, inl, inr, true, false, List, [], ◌∷◌, ◌++◌, map, arith, if◌then◌else◌, Bool-cases,
  exists, All, find_first, Option, some, Result, ok,
}
use pengu_mesh.Leases.{LeaseRecord, same_identity, overwrite, upsert_lease, LeaseError}
use pengu_mesh.Leases.Rows.{
  Upserted, clash, updated, inserted, upsert_lease_lem, overwrite_self, same_identity_euclid,
  same_identity_sym,
}

-- The lease of an identity in the table.
abbrev pub lease_of : List LeaseRecord → LeaseRecord → Option LeaseRecord
lease_of rows k = find_first (same_identity k) rows

module _ (a k : LeaseRecord) where
  overwrite_cases :
      (l : LeaseRecord)
      → ((same_identity a l ≡ true) × (overwrite a l ≡ a))
        ⊎ ((same_identity a l ≡ false) × (overwrite a l ≡ l))
  overwrite_cases l = elim (Bool-cases (same_identity a l)) [
    | inl e ↦ inl (e, overwrite_self a l e)
    | inr e ↦ inr (e, rw e refl)
  ]

  lease_of-overwrite_ne :
      (rows : List LeaseRecord)
      → same_identity k a ≡ false
      → lease_of (map (overwrite a) rows) k ≡ lease_of rows k
  lease_of-overwrite_ne [] ne = refl
  lease_of-overwrite_ne (l ∷ ls) ne = elim (overwrite_cases l) [
    | inl (e, o) ↦
        rw (o, ne)
          (ground (
            arith,
            lease_of-overwrite_ne ls ne,
            same_identity_euclid l k a,
            same_identity_sym a l,
            same_identity_sym k l,
          ))
    | inr (e, o) ↦ rw (o, lease_of-overwrite_ne ls ne)
  ]

  lease_of-overwrite_eq :
      (rows : List LeaseRecord)
      → same_identity k a ≡ true
      → exists (same_identity a) rows ≡ true
      → lease_of (map (overwrite a) rows) k ≡ some a
  lease_of-overwrite_eq [] eq some_row = cc
  lease_of-overwrite_eq (l ∷ ls) eq some_row = elim (overwrite_cases l) [
    | inl (e, o) ↦ rw (o, eq)
    | inr (e, o) ↦ rw o (ground (arith, lease_of-overwrite_eq ls eq, same_identity_euclid k a l))
  ]

  lease_of-insert :
      (rows : List LeaseRecord)
      → All (λ l. same_identity a l ≡ false) rows
      → lease_of (rows ++ a ∷ []) k ≡ (if same_identity k a then some a else lease_of rows k)
  lease_of-insert [] new = refl
  lease_of-insert (l ∷ ls) new =
      ground (arith, lease_of-insert ls new.1, new.0, same_identity_euclid k a l)

-- The table is a map from identities: an upsert that is not refused sets its own identity's lease,
-- and no other.
pub lease_of-upsert :
    (rows rows' : List LeaseRecord) (a k : LeaseRecord)
    → upsert_lease rows a ≡ ok rows'
    → lease_of rows' k ≡ (if same_identity k a then some a else lease_of rows k)
lease_of-upsert rows rows' a k h = go (upsert_lease rows a) (upsert_lease_lem rows a) h
  where
    go :
        (r : Result (List LeaseRecord) LeaseError)
        → Upserted rows a r
        → r ≡ ok rows'
        → lease_of rows' k ≡ (if same_identity k a then some a else lease_of rows k)
    go _ (clash e) q = cc
    go _ (updated n e) q =
        ground (arith, lease_of-overwrite_ne a k rows, lease_of-overwrite_eq a k rows)
    go _ (inserted n e) q = ground (arith, lease_of-insert a k rows e)
