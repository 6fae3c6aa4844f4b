-- ===== src/Prelude/Removal.antt =====
-- What removing a list's element by `Vec::swap_remove` and `position` leaves, and what orders of a
-- list do not change.
use Prim.Native.Nat.{ℕ, zero, suc}
use mathlib.Core.Path.{◌≡◌, refl, ap, sym, ap, ◌∙◌, subst}
use mathlib.Core.Logic.{◌⊎◌, inl, inr, ∥∥₁_elim}
use mathlib.Core.Bool.{Bool, true, false}
use mathlib.Core.List.{List, [], ◌∷◌, Perm, Permᴰ, Memᴰ}
use mathlib.Core.List.Perm
use mathlib.Core.Option.{none, some}
use native.Mathlib.Nat.{ℕ_set}
use native.Mathlib.Omega.{arith}
use pengu_mesh.Prelude.Tests.{Bool-cases}
use pengu_mesh.Prelude.Lists.{
  length, get_elem?, count, All, split_last, rotate_last, swap_remove, position, find_first,
}

module _ {ℓ} {A : Type ℓ} where
  split_last-perm :
      (x : A) (xs : List A) → Perm (x ∷ xs) ((split_last x xs).1 ∷ (split_last x xs).0)
  unfolding split_last
  split_last-perm x [] = Perm.refl (x ∷ [])
  split_last-perm x (y ∷ ys) = Perm.trans (Perm.cons x (split_last-perm y ys)) (Perm.swap _ x _)

  rotate_last-perm : (xs : List A) → Perm xs (rotate_last xs)
  rotate_last-perm [] = Perm.refl []
  rotate_last-perm (y ∷ ys) = split_last-perm y ys

  -- The element at an index is taken out, and the others stay, in some order.
  pub swap_remove_lem :
      (i : ℕ) (xs : List A) (a : A)
      → get_elem? xs i ≡ some a
      → (rest : List A) × (swap_remove i xs ≡ some (a, rest)) × Perm xs (a ∷ rest)
  unfolding swap_remove
  swap_remove_lem i [] a h = cc
  swap_remove_lem zero (x ∷ xs) a h =
      let e : x ≡ a = cc in
      (
        rotate_last xs,
        ap (λ b. some (b, rotate_last xs)) e,
        subst (λ b. Perm (x ∷ xs) (b ∷ rotate_last xs)) e (Perm.cons x (rotate_last-perm xs)),
      )
  swap_remove_lem (suc i) (x ∷ xs) a h =
      let (rest, e, p) = swap_remove_lem i xs a h in
      (x ∷ rest, rw (e, swap_remove) refl, Perm.trans (Perm.cons x p) (Perm.swap a x rest))

  -- The position of the first element that passes, or none where no element does.
  pub position_lem :
      (p : A → Bool) (xs : List A)
      → ((position p xs ≡ none) × All (λ x. p x ≡ false) xs)
        ⊎ ((i : ℕ) × (a : A) × (position p xs ≡ some i)
            × (get_elem? xs i ≡ some a)
            × (find_first p xs ≡ some a)
            × (p a ≡ true))
  unfolding position
  position_lem p [] = inl (refl, tt)
  position_lem p (x ∷ xs) = elim (Bool-cases (p x)) [
    | inl e ↦ inr (0, x, rw e refl, refl, rw e refl, e)
    | inr e ↦ elim (position_lem p xs) [
      | inl (f, h) ↦ inl (rw (e, f) refl, (e, h))
      | inr (i, a, f, g, k, h) ↦ inr (suc i, a, rw (e, f) refl, g, rw e k, h)
    ]
  ]

  count-Permᴰ : (p : A → Bool) {xs ys : List A} → Permᴰ xs ys → count p xs ≡ count p ys
  count-Permᴰ p Permᴰ.nil = refl
  count-Permᴰ p (Permᴰ.cons {l₁ = xs} {l₂ = ys} e h) = ground (arith, count-Permᴰ p h)
  count-Permᴰ p (Permᴰ.swap e f) = ground arith
  count-Permᴰ p (Permᴰ.trans h k) = count-Permᴰ p h ∙ count-Permᴰ p k

  pub count-Perm : (p : A → Bool) {xs ys : List A} → Perm xs ys → count p xs ≡ count p ys
  count-Perm p h = ∥∥₁_elim h (ℕ_set _ _) (count-Permᴰ p)

  length-Permᴰ : {xs ys : List A} → Permᴰ xs ys → length xs ≡ length ys
  length-Permᴰ Permᴰ.nil = refl
  length-Permᴰ (Permᴰ.cons e h) = ap suc (length-Permᴰ h)
  length-Permᴰ (Permᴰ.swap e f) = refl
  length-Permᴰ (Permᴰ.trans h k) = length-Permᴰ h ∙ length-Permᴰ k

  pub length-Perm : {xs ys : List A} → Perm xs ys → length xs ≡ length ys
  length-Perm h = ∥∥₁_elim h (ℕ_set _ _) length-Permᴰ

module _ {ℓ κ} {A : Type ℓ} where
  pub All-mem : (P : A → Type κ) {a : A} {xs : List A} → All P xs → Memᴰ a xs → P a
  All-mem P h (Memᴰ.head e) = subst P (sym e) h.0
  All-mem P h (Memᴰ.tail m) = All-mem P h.1 m

  pub get_elem?-All :
      (P : A → Type κ) (xs : List A) (i : ℕ) {a : A} → All P xs → get_elem? xs i ≡ some a → P a
  get_elem?-All P [] i h e = cc
  get_elem?-All P (x ∷ xs) zero h e = ground (arith, h.0)
  get_elem?-All P (x ∷ xs) (suc i) h e = get_elem?-All P xs i h.1 e
