-- ===== src/Tables/Laws.antt =====
-- What the statements on a table (crates/pengu-mesh-state/src/lib.rs) keep of its rows.
use pengu_mesh.Prelude.{
  ◌≡◌, refl, sym, inl, inr, true, false, some, List, [], ◌∷◌, ◌++◌, arith, Bool-cases, Text,
  text_eq, text_eq_iff, text_eq_refl, find_first-mem, exists-All, All, All-mono, Pairwise,
  Pairwise-snoc, Memᴰ,
}
use pengu_mesh.Tables.{find_row, key_taken, replaced, update_row}

-- The primary key.
abbrev pub UniqueKeys : {A : Type 0} → (A → Text) → List A → Type 0
UniqueKeys key = Pairwise (λ r s. text_eq (key r) (key s) ≡ false)

module _ {A : Type 0} (key : A → Text) where
  pub insert-UniqueKeys :
      (rows : List A) (a : A)
      → UniqueKeys key rows
      → key_taken key rows (key a) ≡ false
      → UniqueKeys key (rows ++ a ∷ [])
  unfolding key_taken
  insert-UniqueKeys rows a u free = Pairwise-snoc _ rows a u (exists-All _ rows free)

  replaced_key : (a r : A) → key (replaced key a r) ≡ key r
  replaced_key a r = elim (Bool-cases (text_eq (key r) (key a))) [
    | inl e ↦ rw e (sym ((text_eq_iff (key r) (key a)).0 e))
    | inr e ↦ rw e refl
  ]

  update-fresh :
      (rows : List A) (a : A) (k : Text)
      → All (λ s. text_eq k (key s) ≡ false) rows
      → All (λ s. text_eq k (key s) ≡ false) (update_row key rows a)
  unfolding update_row
  update-fresh [] a k h = tt
  update-fresh (r ∷ rs) a k h = (rw (replaced_key a r) h.0, update-fresh rs a k h.1)

  pub update-UniqueKeys :
      (rows : List A) (a : A) → UniqueKeys key rows → UniqueKeys key (update_row key rows a)
  unfolding update_row
  update-UniqueKeys [] a u = tt
  update-UniqueKeys (r ∷ rs) a u =
      (rw (replaced_key a r) (update-fresh rs a (key r) u.0), update-UniqueKeys rs a u.1)

  -- A row that is found stays found after an insert.
  pub find-insert_some :
      (rows : List A) (a : A) (k : Text) {r : A}
      → find_row key rows k ≡ some r
      → find_row key (rows ++ a ∷ []) k ≡ some r
  unfolding find_row
  find-insert_some [] a k e = cc
  find-insert_some (s ∷ rows) a k {r} e = ground (arith, find-insert_some rows a k {r = r})

  pub find-insert_self :
      (rows : List A) (a : A)
      → key_taken key rows (key a) ≡ false
      → find_row key (rows ++ a ∷ []) (key a) ≡ some a
  unfolding find_row key_taken
  find-insert_self [] a e = rw (text_eq_refl (key a)) refl
  find-insert_self (s ∷ rows) a e = ground (arith, find-insert_self rows a)

  pub find-update_ne :
      (rows : List A) (a : A) (k : Text)
      → text_eq (key a) k ≡ false
      → find_row key (update_row key rows a) k ≡ find_row key rows k
  unfolding find_row update_row
  find-update_ne [] a k ne = refl
  find-update_ne (s ∷ rows) a k ne = elim (Bool-cases (text_eq (key s) (key a))) [
    | inl e ↦
        let other : text_eq (key s) k ≡ false = ground (arith, text_eq_iff (key s) (key a)) in
        rw (e, ne, other) (find-update_ne rows a k ne)
    | inr e ↦ rw (e, find-update_ne rows a k ne) refl
  ]

  pub find-update_self :
      (rows : List A) (a : A) {r : A}
      → find_row key rows (key a) ≡ some r
      → find_row key (update_row key rows a) (key a) ≡ some a
  unfolding find_row update_row
  find-update_self [] a h = cc
  find-update_self (s ∷ rows) a {r} h = elim (Bool-cases (text_eq (key s) (key a))) [
    | inl e ↦ rw (e, text_eq_refl (key a)) refl
    | inr e ↦ rw (e, e) (find-update_self rows a {r = r} (ground arith))
  ]

  pub find-mem :
      (rows : List A) (k : Text) {r : A} → find_row key rows k ≡ some r → Memᴰ r rows × (key r ≡ k)
  unfolding find_row
  find-mem rows k {r} e = let (m, h) = find_first-mem _ rows e in (m, (text_eq_iff (key r) k).0 h)

  -- Only the row that is found has its key.
  pub found_only :
      (rows : List A) (k : Text) {r : A}
      → UniqueKeys key rows
      → find_row key rows k ≡ some r
      → All (λ s. text_eq (key s) k ≡ true → s ≡ r) rows
  unfolding find_row
  found_only [] k u e = tt
  found_only (s ∷ rows) k {r} u e = elim (Bool-cases (text_eq (key s) k)) [
    | inl h ↦
        let is_r : s ≡ r = ground arith in
        (
          λ _. is_r,
          All-mono _ _ rows
              (λ x f g.
                absurd
                  (ground (arith, text_eq_iff (key s) k, text_eq_iff (key x) k, text_eq_refl k)))
              u.0,
        )
    | inr h ↦ (λ g. cc, found_only rows k u.1 (ground arith))
  ]

  -- An update whose row agrees with the old one on a column changes no value of the column.
  pub update-All :
      (P : A → Type 0) (rows : List A) (a : A) → All P rows → P a → All P (update_row key rows a)
  unfolding update_row
  update-All P [] a h p = tt
  update-All P (s ∷ rows) a h p = elim (Bool-cases (text_eq (key s) (key a))) [
    | inl e ↦ rw e (p, update-All P rows a h.1 p)
    | inr e ↦ rw e (h.0, update-All P rows a h.1 p)
  ]
