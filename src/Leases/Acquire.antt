-- ===== src/Leases/Acquire.antt =====
-- What the lease statements of crates/pengu-mesh-state/src/lib.rs promise their callers.
use pengu_mesh.Prelude.{
  ◌≡◌, ◌≢◌, refl, sym, ap, subst, ◌∙◌, ◌⊎◌, inl, inr, Bool, true, false, ◌&&◌, List, arith, Text,
  text_eq_iff, exists, All-mem, Memᴰ, mem-keep, exists-mem, exists-keep, Result, ok, err,
}
use pengu_mesh.Leases.{
  LeaseRecord, writer, observer, LeaseError, held_by, constraint_failed, is_active, same_identity,
  id_clash, acquire_lease,
}
use pengu_mesh.Leases.Rows.{
  both_writers, WellFormed, keep-WellFormed, upsert-WellFormed, upsert-mem, OneWriter-unique,
  same_identity_iff,
}
use pengu_mesh.Leases.Exclusive.{
  Acquired, refused, id_taken, granted, acquire_lease_lem, active, Alone,
}

-- `acquire_lease` keeps a table well formed: its keys hold, and no resource has two writers.
pub acquire_lease-WellFormed :
    (rows : List LeaseRecord) (a : LeaseRecord) (now : Text)
    → WellFormed rows
    → WellFormed (acquire_lease rows a now).1
acquire_lease-WellFormed rows a now w = go (acquire_lease rows a now) (acquire_lease_lem rows a now)
  where
    go : (r : Result Bool LeaseError × List LeaseRecord) → Acquired rows a now r → WellFormed r.1
    go _ (refused v e m ew er ne) = w
    go _ (id_taken e alone) = w
    go _ (granted rows' renewed n alone u) =
        upsert-WellFormed (active rows now) a (ok rows') (keep-WellFormed (is_active now) rows w) u
          alone

-- Once a writer lease is granted on a well-formed table, it is in the table, and it is the only
-- writer lease of its resource there, expired ones included.
pub acquire_lease_exclusive :
    (rows rows' : List LeaseRecord) (a : LeaseRecord) (now : Text) (renewed : Bool)
    → WellFormed rows
    → acquire_lease rows a now ≡ (ok renewed, rows')
    → a.mode ≡ writer
    → Memᴰ a rows'
      × ((b : LeaseRecord) → Memᴰ b rows' → b.mode ≡ writer → b.resource_id ≡ a.resource_id → b ≡ a)
acquire_lease_exclusive rows rows' a now renewed w h e =
    (held, λ b m eb er. OneWriter-unique rows' valid m held eb e er)
  where
    held : Memᴰ a rows'
    held = go (acquire_lease rows a now) (acquire_lease_lem rows a now) h
      where
        go :
            (r : Result Bool LeaseError × List LeaseRecord)
            → Acquired rows a now r
            → r ≡ (ok renewed, rows')
            → Memᴰ a rows'
        go _ (refused v _ m ew er ne) q = cc
        go _ (id_taken _ _) q = cc
        go _ (granted rows'' _ n alone u) q =
            subst (Memᴰ a) (ap (λ r. r.1) q) (upsert-mem (active rows now) a rows'' u)

    valid : WellFormed rows'
    valid = subst WellFormed (ap (λ r. r.1) h) (acquire_lease-WellFormed rows a now w)

-- In a well-formed table, while a holder has an active writer lease, another holder's request
-- for a writer lease of the resource is refused with the holder and the expiry of that lease,
-- and the table is unchanged.
pub acquire_lease_refused :
    (rows : List LeaseRecord) (a w : LeaseRecord) (now : Text)
    → WellFormed rows
    → Memᴰ w rows
    → w.mode ≡ writer
    → w.resource_id ≡ a.resource_id
    → is_active now w ≡ true
    → a.mode ≡ writer
    → w.holder_id ≢ a.holder_id
    → acquire_lease rows a now ≡ (err (held_by w.holder_id w.expires_at), rows)
acquire_lease_refused rows a w now valid m ew er live ea ne =
    go (acquire_lease rows a now) (acquire_lease_lem rows a now)
  where
    here : Memᴰ w (active rows now)
    here = mem-keep (is_active now) rows m live

    contested : Alone rows a now → ⊥
    contested (inl e) =
        let (l, ml, same) = exists-mem (same_identity a) (active rows now) e in
        let (r, o, d) = (same_identity_iff a l).0 same in
        let is_w : l ≡ w =
          OneWriter-unique (active rows now) (keep-WellFormed (is_active now) rows valid) ml here
            (sym d ∙ ea) ew (sym r ∙ sym er) in
        ne (ap (λ (x : LeaseRecord). x.holder_id) (sym is_w) ∙ sym o)
    contested (inr none_else) =
        let n : both_writers w a ≡ false = All-mem _ none_else here in
        ground (arith, text_eq_iff a.resource_id w.resource_id)

    go :
        (r : Result Bool LeaseError × List LeaseRecord)
        → Acquired rows a now r
        → r ≡ (err (held_by w.holder_id w.expires_at), rows)
    go _ (refused v e mv ev er' ne') =
        let same : v ≡ w =
          OneWriter-unique (active rows now) (keep-WellFormed (is_active now) rows valid) mv here ev
            ew (er' ∙ sym er) in
        ap (λ (x : LeaseRecord). (err (held_by x.holder_id x.expires_at), rows)) same
    go _ (id_taken e alone) = absurd (contested alone)
    go _ (granted rows' renewed n alone u) = absurd (contested alone)

-- A grant reports a renewal exactly when the holder had an active lease of the same mode on the
-- resource.
pub acquire_lease_renewed :
    (rows rows' : List LeaseRecord) (a : LeaseRecord) (now : Text) (renewed : Bool)
    → acquire_lease rows a now ≡ (ok renewed, rows')
    → renewed ≡ exists (λ l. same_identity a l && is_active now l) rows
acquire_lease_renewed rows rows' a now renewed h =
    go (acquire_lease rows a now) (acquire_lease_lem rows a now) h
  where
    go :
        (r : Result Bool LeaseError × List LeaseRecord)
        → Acquired rows a now r
        → r ≡ (ok renewed, rows')
        → renewed ≡ exists (λ l. same_identity a l && is_active now l) rows
    go _ (refused v e mv ev er' ne') q = cc
    go _ (id_taken e alone) q = cc
    go _ (granted rows'' renewed' n alone u) q =
        ground (arith, exists-keep (same_identity a) (is_active now) rows)

-- An observer lease is never refused because of a writer: it is granted unless another active row
-- has its id.
pub acquire_lease_observer :
    (rows : List LeaseRecord) (a : LeaseRecord) (now : Text)
    → a.mode ≡ observer
    → ((acquire_lease rows a now).0 ≡ ok (exists (λ l. same_identity a l && is_active now l) rows))
      ⊎ ((exists (id_clash a) (active rows now) ≡ true)
          × (acquire_lease rows a now ≡ (err constraint_failed, rows)))
acquire_lease_observer rows a now e = go (acquire_lease rows a now) (acquire_lease_lem rows a now)
  where
    go :
        (r : Result Bool LeaseError × List LeaseRecord)
        → Acquired rows a now r
        → (r.0 ≡ ok (exists (λ l. same_identity a l && is_active now l) rows))
          ⊎ ((exists (id_clash a) (active rows now) ≡ true) × (r ≡ (err constraint_failed, rows)))
    go _ (refused v w mv ev er' ne') = cc
    go _ (id_taken d alone) = inr (d, refl)
    go _ (granted rows'' renewed' n alone u) =
        inl (ap ok (n ∙ exists-keep (same_identity a) (is_active now) rows))
