-- ===== src/Tables/Newest.antt =====
-- What `ORDER BY started_at DESC` and `LIMIT` give, in the queries of crates/pengu-mesh-state/src/lib.rs:
-- rows by a column of times, the newest first.
use pengu_mesh.Prelude.{
  ℕ, zero, suc, min, ◌≡◌, refl, ap, subst, ◌⊎◌, inl, inr, Bool, true, false, List, [], ◌∷◌, arith,
  Bool-cases, if◌then◌else◌, Text, text_lt, text_lt_irrefl, text_lt_trans, text_lt_total, length,
  All, All-mono, All-of-mem, All-both, Pairwise, Memᴰ,
}
use pengu_mesh.Tables.Query.{insert_by, order_by, limit}

module _ {A : Type 0} (time : A → Text) where
  -- The test of the order, and what it leaves between a row and one that comes later.
  abbrev pub newer_by : A → A → Bool
  newer_by r s = text_lt (time s) (time r)

  abbrev pub NotOlder : A → A → Type 0
  NotOlder r s = text_lt (time r) (time s) ≡ false

  not_older : (x y z : A) → NotOlder x y → NotOlder y z → NotOlder x z
  not_older x y z h k = elim (Bool-cases (text_lt (time x) (time z))) [
    | inl e ↦ elim (Bool-cases (text_lt (time z) (time y))) [
      | inl f ↦ absurd (ground (arith, text_lt_trans (time x) (time z) (time y) e f))
      | inr f ↦
          let same : time y ≡ time z = text_lt_total (time y) (time z) k f in
          absurd (ground (arith, e, h, ap (text_lt (time x)) same))
    ]
    | inr e ↦ e
  ]

  newer-NotOlder : (x y : A) → newer_by x y ≡ true → NotOlder x y
  newer-NotOlder x y h = elim (Bool-cases (text_lt (time x) (time y))) [
    | inl e ↦
        absurd
          (ground (arith, text_lt_trans (time x) (time y) (time x) e h, text_lt_irrefl (time x)))
    | inr e ↦ e
  ]

  pub NotOlder-refl : (x : A) → NotOlder x x
  NotOlder-refl x = text_lt_irrefl (time x)

  insert_by-All :
      (P : A → Type 0) (x : A) (xs : List A) → P x → All P xs → All P (insert_by newer_by x xs)
  unfolding insert_by
  insert_by-All P x [] p h = (p, tt)
  insert_by-All P x (y ∷ ys) p h = elim (Bool-cases (newer_by y x)) [
    | inl e ↦ rw e (h.0, insert_by-All P x ys p h.1)
    | inr e ↦ rw e (p, h)
  ]

  -- What holds of all rows holds of the ordered ones, and back.
  pub order_by-All : (P : A → Type 0) (xs : List A) → All P xs → All P (order_by newer_by xs)
  unfolding order_by
  order_by-All P [] h = tt
  order_by-All P (x ∷ xs) h = insert_by-All P x (order_by newer_by xs) h.0 (order_by-All P xs h.1)

  insert_by-All_inverse :
      (P : A → Type 0) (x : A) (xs : List A) → All P (insert_by newer_by x xs) → P x × All P xs
  unfolding insert_by
  insert_by-All_inverse P x [] h = (h.0, tt)
  insert_by-All_inverse P x (y ∷ ys) h = elim (Bool-cases (newer_by y x)) [
    | inl e ↦
        let (a, b) =
          subst (All P) (ap (λ c. if c then y ∷ insert_by newer_by x ys else x ∷ y ∷ ys) e) h in
        let (p, q) = insert_by-All_inverse P x ys b in (p, (a, q))
    | inr e ↦ subst (All P) (ap (λ c. if c then y ∷ insert_by newer_by x ys else x ∷ y ∷ ys) e) h
  ]

  pub order_by-All_inverse :
      (P : A → Type 0) (xs : List A) → All P (order_by newer_by xs) → All P xs
  unfolding order_by
  order_by-All_inverse P [] h = tt
  order_by-All_inverse P (x ∷ xs) h =
      let (p, q) = insert_by-All_inverse P x (order_by newer_by xs) h in
      (p, order_by-All_inverse P xs q)

  insert_by-Pairwise :
      (x : A) (xs : List A) → Pairwise NotOlder xs → Pairwise NotOlder (insert_by newer_by x xs)
  unfolding insert_by
  insert_by-Pairwise x [] h = (tt, tt)
  insert_by-Pairwise x (y ∷ ys) h = elim (Bool-cases (newer_by y x)) [
    | inl e ↦
        rw e
          (insert_by-All (NotOlder y) x ys (newer-NotOlder y x e) h.0, insert_by-Pairwise x ys h.1)
    | inr e ↦ rw e ((e, All-mono _ _ ys (λ z k. not_older x y z e k) h.0), h)
  ]

  -- The ordered rows are the newest first.
  pub order_by-Pairwise : (xs : List A) → Pairwise NotOlder (order_by newer_by xs)
  unfolding order_by
  order_by-Pairwise [] = tt
  order_by-Pairwise (x ∷ xs) = insert_by-Pairwise x (order_by newer_by xs) (order_by-Pairwise xs)

  insert_by-length : (x : A) (xs : List A) → length (insert_by newer_by x xs) ≡ suc (length xs)
  unfolding insert_by
  insert_by-length x [] = refl
  insert_by-length x (y ∷ ys) = ground (arith, insert_by-length x ys)

  pub order_by-length : (xs : List A) → length (order_by newer_by xs) ≡ length xs
  unfolding order_by
  order_by-length [] = refl
  order_by-length (x ∷ xs) =
      omega (arith, insert_by-length x (order_by newer_by xs), order_by-length xs)

module _ {A : Type 0} where
  pub limit-length : (n : ℕ) (xs : List A) → length (limit n xs) ≡ min n (length xs)
  unfolding limit
  limit-length zero xs = omega arith
  limit-length (suc n) [] = omega arith
  limit-length (suc n) (x ∷ xs) = omega (arith, limit-length n xs)

  pub limit-All : (P : A → Type 0) (n : ℕ) (xs : List A) → All P xs → All P (limit n xs)
  unfolding limit
  limit-All P zero xs h = tt
  limit-All P (suc n) [] h = tt
  limit-All P (suc n) (x ∷ xs) h = (h.0, limit-All P n xs h.1)

  pub limit-Pairwise :
      (R : A → A → Type 0) (n : ℕ) (xs : List A) → Pairwise R xs → Pairwise R (limit n xs)
  unfolding limit
  limit-Pairwise R zero xs h = tt
  limit-Pairwise R (suc n) [] h = tt
  limit-Pairwise R (suc n) (x ∷ xs) h = (limit-All (R x) n xs h.0, limit-Pairwise R n xs h.1)

  -- A row of an ordered list is within the limit, or every row within the limit comes before it.
  pub limit-cut :
      (R : A → A → Type 0) (n : ℕ) (xs : List A)
      → Pairwise R xs
      → All (λ s. Memᴰ s (limit n xs) ⊎ All (λ r. R r s) (limit n xs)) xs
  unfolding limit
  limit-cut R zero xs h = All-of-mem _ xs (λ s m. inr tt)
  limit-cut R (suc n) [] h = tt
  limit-cut R (suc n) (x ∷ xs) h = (
    inl (Memᴰ.head refl),
    All-mono _ _ xs (λ s c. elim c.1 [ inl m ↦ inl (Memᴰ.tail m) | inr k ↦ inr (c.0, k) ])
        (All-both _ _ xs h.0 (limit-cut R n xs h.1)),
  )
