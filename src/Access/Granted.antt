-- ===== src/Access/Granted.antt =====
-- What a granted access means (`require_instance_access` in crates/pengu-mesh-core/src/lib.rs).
use pengu_mesh.Prelude.{
  ℕ, ◌≡◌, refl, sym, ap, subst, ◌∙◌, ◌⊎◌, inl, inr, Bool, true, false, ◌&&◌, Option, none, some,
  List, [], ◌∷◌, arith, if◌then◌else◌, Bool-cases, Text, text_eq, text_eq_iff, text_lt, find_first,
  find_first-mem, is_empty, keep, keep-mem, kept_passes, mem-keep, Memᴰ, Result, ok, err,
}
use pengu_mesh.Leases.{
  LeaseRecord, writer, LeaseError, is_active, mode_eq, kind_eq, of_instance, acquire_lease,
  listed_before, insert_sorted, in_list_order, list_leases, resource_matches,
}
use pengu_mesh.Leases.Rows.{OneWriter-unique, keep-WellFormed}
use pengu_mesh.Leases.Acquire.{acquire_lease_exclusive}
use pengu_mesh.Access.{
  Runtime, AccessError, Times, LeaseAction, needs_writer, LeaseAcquirePayload, refuse_writer,
  recorded, discarded, serves, serves_already, lease_holder_label, default_lease_ttl_seconds,
  is_known, acquire, clamp_ttl,
}
use pengu_mesh.Access.Operations.{
  build_instance_lease, acquire_stored, acquire_built, lease_acquire, require_instance_access,
}
use pengu_mesh.Access.Keeps.{IsValid, build_instance_lease_lem, require_instance_access-IsValid}

insert_sorted-mem :
    (l : LeaseRecord) (ms : List LeaseRecord) {a : LeaseRecord}
    → Memᴰ a (insert_sorted l ms)
    → (a ≡ l) ⊎ Memᴰ a ms
unfolding insert_sorted
insert_sorted-mem l [] (Memᴰ.head e) = inl e
insert_sorted-mem l [] (Memᴰ.tail m) = inr m
insert_sorted-mem l (m ∷ ms) {a} h = go (listed_before m l) (insert_sorted-mem l ms) h
  where
    go :
        (b : Bool)
        → (Memᴰ a (insert_sorted l ms) → (a ≡ l) ⊎ Memᴰ a ms)
        → Memᴰ a (if b then m ∷ insert_sorted l ms else l ∷ m ∷ ms)
        → (a ≡ l) ⊎ Memᴰ a (m ∷ ms)
    go true ih (Memᴰ.head e) = inr (Memᴰ.head e)
    go true ih (Memᴰ.tail k) = elim (ih k) [ inl e ↦ inl e | inr q ↦ inr (Memᴰ.tail q) ]
    go false ih (Memᴰ.head e) = inl e
    go false ih (Memᴰ.tail k) = inr k

in_list_order-mem :
    (ls : List LeaseRecord) {a : LeaseRecord} → Memᴰ a (in_list_order ls) → Memᴰ a ls
unfolding in_list_order
in_list_order-mem [] m = m
in_list_order-mem (l ∷ ls) m = elim (insert_sorted-mem l (in_list_order ls) m) [
  | inl e ↦ Memᴰ.head e
  | inr k ↦ Memᴰ.tail (in_list_order-mem ls k)
]

-- A listed lease of an instance is a row of it.
list_leases-mem :
    (rows : List LeaseRecord) (i now : Text) {a : LeaseRecord}
    → Memᴰ a (list_leases rows (some i) now)
    → Memᴰ a rows × (a.resource_id ≡ i)
unfolding list_leases
list_leases-mem rows i now {a} m =
    let k =
      in_list_order-mem
        (keep
          (λ l.
            kind_eq l.resource_kind of_instance && (resource_matches (some i) l && is_active now l))
          rows)
        m in
    (keep-mem _ rows k, ground (arith, kept_passes _ rows k, text_eq_iff a.resource_id i))

-- The holder has a writer lease of the instance in the table.
abbrev pub Holds : Text → Text → List LeaseRecord → Type 0
Holds i h rows =
    (l : LeaseRecord) × Memᴰ l rows × (l.mode ≡ writer) × (l.holder_id ≡ h) × (l.resource_id ≡ i)

-- No holder but this one has a writer lease of the instance in the table.
abbrev pub OnlyWriter : Text → Text → List LeaseRecord → Type 0
OnlyWriter i h rows =
    (b : LeaseRecord) → Memᴰ b rows → b.mode ≡ writer → b.resource_id ≡ i → b.holder_id ≡ h

-- What an operation that succeeds leaves in the table.
abbrev OnOk : {A : Type 0} → (List LeaseRecord → Type 0) → Result A AccessError × Runtime → Type 0
OnOk P (ok a, m) = P m.leases
OnOk P (err e, m) = Unit

module _ (P : List LeaseRecord → Type 0) where
  if-OnOk :
      {A : Type 0} (b : Bool) (x y : Result A AccessError × Runtime)
      → (b ≡ true → OnOk P x)
      → (b ≡ false → OnOk P y)
      → OnOk P (if b then x else y)
  if-OnOk true x y v w = v refl
  if-OnOk false x y v w = w refl

  recorded-OnOk :
      {A : Type 0} (a : LeaseAction) (i : Text) (r : Result A AccessError × Runtime)
      → OnOk P r
      → OnOk P (recorded a i r)
  unfolding recorded
  recorded-OnOk a i (ok x, m) v = elim (Bool-cases m.run_active) [ inl e ↦ rw e v | inr e ↦ rw e v ]
  recorded-OnOk a i (err x, m) v = tt

  discarded-OnOk :
      (r : Result LeaseAcquirePayload AccessError × Runtime) → OnOk P r → OnOk P (discarded r)
  discarded-OnOk (ok a, m) v = v
  discarded-OnOk (err e, m) v = tt

module _ (add_seconds : Text → ℕ → Option Text) (t : Times)
    (outlives : (ttl : ℕ) (x : Text)
      → add_seconds t.granted (clamp_ttl ttl) ≡ some x
      → text_lt t.listed x ≡ true) where
  -- A granted writer lease is in the table once the leases are listed again.
  acquire_built-OnOk :
      (m : Runtime) (i h : Text) (l : Option Text) (ttl : ℕ) (o : Option LeaseRecord)
      → IsValid m
      → build_instance_lease add_seconds i h l writer ttl t.granted ≡ o
      → OnOk (Holds i h) (acquire_built add_seconds m i t o)
  unfolding acquire_built
  acquire_built-OnOk m i h l ttl none v built = tt
  acquire_built-OnOk m i h l ttl (some a) v built = go (acquire_lease m.leases a t.now) refl
    where
      go :
          (r : Result Bool LeaseError × List LeaseRecord)
          → acquire_lease m.leases a t.now ≡ r
          → OnOk (Holds i h) (acquire_stored add_seconds m i t a r)
      go (err x, rows) q = tt
      go (ok renewed, rows) q =
          let (of_i, of_h, is_writer, _, ends) =
            build_instance_lease_lem add_seconds i h l writer ttl t.granted a built in
          let held = (acquire_lease_exclusive m.leases rows a t.now renewed v q is_writer).0 in
          (
            a,
            mem-keep (is_active t.listed) rows held (outlives _ a.expires_at ends),
            is_writer,
            of_h,
            of_i,
          )

  pub lease_acquire-OnOk :
      (m : Runtime) (i h : Text) (l : Option Text) (ttl : ℕ)
      → IsValid m
      → OnOk (Holds i h) (lease_acquire add_seconds m i h l writer ttl t)
  unfolding lease_acquire
  lease_acquire-OnOk m i h l ttl v =
      if-OnOk (Holds i h) (is_known m i) _ _
        (λ _. recorded-OnOk (Holds i h) acquire i _ (
          acquire_built-OnOk m i h l ttl
            (build_instance_lease add_seconds i h l writer ttl t.granted) v refl))
        (λ _. tt)

  refuse_writer-OnOk :
      (m : Runtime) (i h now : Text) (rows : List LeaseRecord) (o : Option LeaseRecord)
      → is_empty (list_leases rows (some i) now) ≡ false
      → m.leases ≡ rows
      → find_first (λ l. mode_eq l.mode writer) (list_leases rows (some i) now) ≡ o
      → OnOk (Holds i h) (refuse_writer m i h (list_leases rows (some i) now) o)
  unfolding refuse_writer
  refuse_writer-OnOk m i h now rows none some_lease same found = rw some_lease tt
  refuse_writer-OnOk m i h now rows (some w) some_lease same found =
      if-OnOk (Holds i h) (text_eq w.holder_id h) _ _ own (λ _. tt)
    where
      own : text_eq w.holder_id h ≡ true → Holds i h m.leases
      own e =
          let (listed, is_writer) = find_first-mem _ (list_leases rows (some i) now) found in
          let (m', of_i) = list_leases-mem rows i now listed in
          (w, subst (Memᴰ w) (sym same) m', ground arith, (text_eq_iff w.holder_id h).0 e, of_i)

  serves-Holds :
      (rows : List LeaseRecord) (i h now : Text) (o : Option LeaseRecord)
      → find_first (serves h needs_writer) (list_leases rows (some i) now) ≡ o
      → serves_already needs_writer o ≡ true
      → Holds i h rows
  serves-Holds rows i h now none found e = cc
  serves-Holds rows i h now (some l) found e =
      let (listed, serving) =
        find_first-mem (serves h needs_writer) (list_leases rows (some i) now) found in
      let (m', of_i) = list_leases-mem rows i now listed in
      (l, m', ground arith, ground (arith, text_eq_iff l.holder_id h), of_i)

  require_instance_access-OnOk :
      (m : Runtime) (i h : Text) (now : Text)
      → IsValid m
      → OnOk (Holds i h) (require_instance_access add_seconds m i h needs_writer now t)
  unfolding require_instance_access
  require_instance_access-OnOk m i h now v =
      let rows : List LeaseRecord = keep (is_active now) m.leases in
      let live : Runtime = record m { leases = rows } in
      let listed : List LeaseRecord = list_leases rows (some i) now in
      if-OnOk (Holds i h) (serves_already needs_writer (find_first (serves h needs_writer) listed))
        _ _ (λ e. serves-Holds rows i h now _ refl e)
        (λ _.
          if-OnOk (Holds i h) (is_empty listed) _ _
            (λ _. discarded-OnOk (Holds i h) _ (
              lease_acquire-OnOk live i h (lease_holder_label live h) default_lease_ttl_seconds
                (keep-WellFormed (is_active now) m.leases v)))
            (λ e. refuse_writer-OnOk live i h now rows _ e refl refl))

  -- From a valid runtime, access for writing is granted to a holder only with a writer lease of
  -- the instance in the table, and then no other holder has one, provided that a lease does not
  -- expire before the operation lists the leases again.
  pub require_instance_access_exclusive :
      (m m' : Runtime) (i h : Text) (now : Text)
      → IsValid m
      → require_instance_access add_seconds m i h needs_writer now t ≡ (ok tt, m')
      → Holds i h m'.leases × OnlyWriter i h m'.leases
  require_instance_access_exclusive m m' i h now v e =
      let held : Holds i h m'.leases =
        subst (OnOk (Holds i h)) e (require_instance_access-OnOk m i h now v) in
      let valid : IsValid m' =
        subst (λ (x : Result (Unit {0}) AccessError × Runtime). IsValid x.1) e
          (require_instance_access-IsValid add_seconds m i h needs_writer now t v) in
      (
        held,
        λ b mb wb ib.
            ap (λ (x : LeaseRecord). x.holder_id)
              (OneWriter-unique m'.leases valid mb held.1 wb held.2 (ib ∙ sym held.4))
            ∙ held.3,
      )
