-- ===== src/Access/Collide.antt =====
-- Two holders whose lease identifiers are the same (`build_instance_lease` in
-- crates/pengu-mesh-core/src/lib.rs, `StableId::new` in crates/pengu-mesh-shared/src/id.rs).
use pengu_mesh.Prelude.{
  ℕ, ◌≡◌, ◌≢◌, refl, sym, ap, ◌∙◌, Bool, true, false, inl, inr, Option, some, List, [], ◌∷◌, ◌++◌,
  append_assoc, arith, Text, text_eq_iff, Option-cases, All, All-mem, true-false, Memᴰ, mem-keep,
  Result, err,
}
use pengu_mesh.StableId.{stable_id, lease, underscore, is_alphanumeric, stable_id_collides}
use pengu_mesh.Leases.{
  LeaseRecord, LeaseMode, observer, LeaseError, constraint_failed, mode_str, acquire_lease,
  id_clash, is_active,
}
use pengu_mesh.Leases.Rows.{same_identity_iff, updated, inserted}
use pengu_mesh.Leases.Exclusive.{Acquired, refused, id_taken, granted, acquire_lease_lem, active}
use pengu_mesh.Access.{clamp_ttl}
use pengu_mesh.Access.Operations.{build_instance_lease}

-- An observer lease is refused while another holder's active lease has its id.
acquire_lease_clash :
    (rows : List LeaseRecord) (a l : LeaseRecord) (now : Text)
    → a.mode ≡ observer
    → Memᴰ l rows
    → is_active now l ≡ true
    → l.id ≡ a.id
    → l.holder_id ≢ a.holder_id
    → acquire_lease rows a now ≡ (err constraint_failed, rows)
acquire_lease_clash rows a l now e m live same other =
    go (acquire_lease rows a now) (acquire_lease_lem rows a now)
  where
    here : Memᴰ l (active rows now)
    here = mem-keep (is_active now) rows m live

    taken : id_clash a l ≡ true
    taken = ground (arith, text_eq_iff l.id a.id, (same_identity_iff a l).0)

    clashes : Memᴰ l (active rows now) → All (λ k. id_clash a k ≡ false) (active rows now) → ⊥
    clashes k none_clash = true-false taken (All-mem _ none_clash k)

    go :
        (r : Result Bool LeaseError × List LeaseRecord)
        → Acquired rows a now r
        → r ≡ (err constraint_failed, rows)
    go _ (refused v d k ev er ne) = cc
    go _ (id_taken d alone) = refl
    go _ (granted _ renewed n alone (updated none_clash d)) = absurd (clashes here none_clash)
    go _ (granted _ renewed n alone (inserted none_clash d)) = absurd (clashes here none_clash)

-- The seed of a lease's identifier, cut at a character of the holder's name.
seed_cut :
    (i front back rest : Text) (c : ℕ)
    → i ++ underscore ∷ (front ++ c ∷ back) ++ rest
      ≡ (i ++ underscore ∷ front) ++ c ∷ (back ++ rest)
seed_cut i front back rest c =
    append_assoc i (underscore ∷ (front ++ c ∷ back)) rest
    ∙ ap (λ x. i ++ underscore ∷ x) (append_assoc front (c ∷ back) rest)
    ∙ sym (append_assoc i (underscore ∷ front) (c ∷ (back ++ rest)))

append-head : (front back : Text) (c d : ℕ) → front ++ c ∷ back ≡ front ++ d ∷ back → c ≡ d
append-head [] back c d e = cc
append-head (x ∷ front) back c d e = append-head front back c d cc

module _ (add_seconds : Text → ℕ → Option Text) where
  build_instance_lease_id :
      (i h : Text) (l : Option Text) (mode : LeaseMode) (ttl : ℕ) (g : Text) (a : LeaseRecord)
      → build_instance_lease add_seconds i h l mode ttl g ≡ some a
      → (a.id ≡ stable_id lease (i ++ underscore ∷ h ++ underscore ∷ mode_str mode))
        × (a.holder_id ≡ h)
        × (a.mode ≡ mode)
  unfolding build_instance_lease
  build_instance_lease_id i h l mode ttl g a e =
      elim (Option-cases (add_seconds g (clamp_ttl ttl))) [
        | inl n ↦ absurd (ground arith)
        | inr (x, n) ↦ ground arith
      ]

  -- Two holders whose names differ in one character that is no ASCII letter or digit cannot
  -- both observe an instance: while the lease of one is active, the other's is refused.
  pub colliding_holder_refused :
      (rows : List LeaseRecord) (i front back : Text) (c d : ℕ) (l l' : Option Text) (ttl ttl' : ℕ)
      (g g' now : Text) (a b : LeaseRecord)
      → is_alphanumeric c ≡ false
      → is_alphanumeric d ≡ false
      → c ≢ d
      → build_instance_lease add_seconds i (front ++ c ∷ back) l observer ttl g ≡ some a
      → build_instance_lease add_seconds i (front ++ d ∷ back) l' observer ttl' g' ≡ some b
      → Memᴰ a rows
      → is_active now a ≡ true
      → acquire_lease rows b now ≡ (err constraint_failed, rows)
  colliding_holder_refused rows i front back c d l l' ttl ttl' g g' now a b hc hd ne ha hb m live =
      let (ia, oa, _) = build_instance_lease_id i (front ++ c ∷ back) l observer ttl g a ha in
      let (ib, ob, eb) = build_instance_lease_id i (front ++ d ∷ back) l' observer ttl' g' b hb in
      acquire_lease_clash rows b a now eb m live (ia ∙ same ∙ sym ib)
        (λ e. ne (append-head front back c d (sym oa ∙ e ∙ ob)))
    where
      rest : Text
      rest = underscore ∷ mode_str observer

      same :
          stable_id lease (i ++ underscore ∷ (front ++ c ∷ back) ++ rest)
          ≡ stable_id lease (i ++ underscore ∷ (front ++ d ∷ back) ++ rest)
      same =
          ap (stable_id lease) (seed_cut i front back rest c)
          ∙ stable_id_collides lease (i ++ underscore ∷ front) (back ++ rest) c d hc hd
          ∙ sym (ap (stable_id lease) (seed_cut i front back rest d))
