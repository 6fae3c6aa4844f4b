-- ===== src/Prelude/Lists.antt =====
-- Lists measured, indexed and searched by native numbers and Boolean tests.
use Prim.Native.Nat.{ℕ, zero, suc, ◌+◌, ◌≤◌}
use mathlib.Core.Path.{◌≡◌, refl}
use mathlib.Core.Bool.{Bool, true, false, ◌&&◌, ◌||◌}
use mathlib.Core.List.{List, [], ◌∷◌, ◌++◌, map}
use mathlib.Core.Logic.{◌⊎◌, inl, inr}
use mathlib.Core.Option.{Option, none, some}
use native.Mathlib.Omega.{arith}
use pengu_mesh.Prelude.Tests.{if◌then◌else◌}

module _ {ℓ} {A : Type ℓ} where
  abbrev pub length : List A → ℕ
  length [] = 0
  length (x ∷ xs) = suc (length xs)

  abbrev pub get_elem? : List A → ℕ → Option A
  get_elem? [] i = none
  get_elem? (x ∷ xs) zero = some x
  get_elem? (x ∷ xs) (suc i) = get_elem? xs i

  abbrev pub is_empty : List A → Bool
  is_empty [] = true
  is_empty (x ∷ xs) = false

  -- `Iterator::filter` with `collect`, `retain`.
  abbrev pub keep : (A → Bool) → List A → List A
  keep p [] = []
  keep p (x ∷ xs) = let rest = keep p xs in if p x then x ∷ rest else rest

  -- `Iterator::filter` with `count`.
  abbrev pub count : (A → Bool) → List A → ℕ
  count p [] = 0
  count p (x ∷ xs) = let rest = count p xs in if p x then suc rest else rest

  -- `Iterator::find`.
  abbrev pub find_first : (A → Bool) → List A → Option A
  find_first p [] = none
  find_first p (x ∷ xs) = if p x then some x else find_first p xs

  -- `Iterator::all` and `Iterator::any`.
  abbrev pub every : (A → Bool) → List A → Bool
  every p [] = true
  every p (x ∷ xs) = p x && every p xs

  abbrev pub exists : (A → Bool) → List A → Bool
  exists p [] = false
  exists p (x ∷ xs) = p x || exists p xs

  pub length-append : (xs ys : List A) → length (xs ++ ys) ≡ length xs + length ys
  length-append [] ys = omega arith
  length-append (x ∷ xs) ys = omega (arith, length-append xs ys)

  pub count-append : (p : A → Bool) (xs ys : List A) → count p (xs ++ ys) ≡ count p xs + count p ys
  count-append p [] ys = omega arith
  count-append p (x ∷ xs) ys = ground (arith, count-append p xs ys)

  pub count-le-length : (p : A → Bool) (xs : List A) → count p xs ≤ length xs
  count-le-length p [] = omega arith
  count-le-length p (x ∷ xs) = ground (arith, count-le-length p xs)

  pub length-keep : (p : A → Bool) (xs : List A) → length (keep p xs) ≡ count p xs
  length-keep p [] = refl
  length-keep p (x ∷ xs) = ground (arith, length-keep p xs)

-- Every member satisfies the predicate.
abbrev pub All {ℓ κ} : {A : Type ℓ} → (A → Type κ) → List A → Type κ
All P [] = Unit
All P (x ∷ xs) = P x × All P xs

-- Every two members at different places are related.
abbrev pub Pairwise {ℓ κ} : {A : Type ℓ} → (A → A → Type κ) → List A → Type κ
Pairwise R [] = Unit
Pairwise R (x ∷ xs) = All (R x) xs × Pairwise R xs

module _ {ℓ κ} {A : Type ℓ} where
  pub All-append : (P : A → Type κ) (xs ys : List A) → All P xs → All P ys → All P (xs ++ ys)
  All-append P [] ys h k = k
  All-append P (x ∷ xs) ys h k = (h.0, All-append P xs ys h.1 k)

  pub All-keep : (P : A → Type κ) (p : A → Bool) (xs : List A) → All P xs → All P (keep p xs)
  All-keep P p [] h = h
  All-keep P p (x ∷ xs) h = ground (arith, All-keep P p xs h.1)

module _ {ℓ κ} {A : Type ℓ} (R : A → A → Type κ) where
  pub Pairwise-keep : (p : A → Bool) (xs : List A) → Pairwise R xs → Pairwise R (keep p xs)
  Pairwise-keep p [] h = h
  Pairwise-keep p (x ∷ xs) h = ground (arith, All-keep (R x) p xs h.0, Pairwise-keep p xs h.1)

  pub Pairwise-snoc :
      (xs : List A) (a : A) → Pairwise R xs → All (λ x. R x a) xs → Pairwise R (xs ++ a ∷ [])
  Pairwise-snoc [] a h k = (tt, tt)
  Pairwise-snoc (x ∷ xs) a h k =
      (All-append (R x) xs (a ∷ []) h.0 (k.0, tt), Pairwise-snoc xs a h.1 k.1)

module _ {ℓ κ μ} {A : Type ℓ} where
  pub All-mono :
      (P : A → Type κ) (Q : A → Type μ) (xs : List A) → ((x : A) → P x → Q x) → All P xs → All Q xs
  All-mono P Q [] f h = tt
  All-mono P Q (x ∷ xs) f h = (f x h.0, All-mono P Q xs f h.1)

-- `Vec::swap_remove` and what it needs.
module _ {ℓ} {A : Type ℓ} where
  unfoldable pub split_last : A → List A → List A × A
  split_last x [] = ([], x)
  split_last x (y ∷ ys) = let r = split_last y ys in (x ∷ r.0, r.1)

  -- The last element goes to the front.
  abbrev pub rotate_last : List A → List A
  rotate_last [] = []
  rotate_last (y ∷ ys) = let r = split_last y ys in r.1 ∷ r.0

  -- `none` where Rust panics: the index is out of range.
  unfoldable pub swap_remove : ℕ → List A → Option (A × List A)
  unfolding split_last
  swap_remove i [] = none
  swap_remove zero (x ∷ xs) = some (x, rotate_last xs)
  swap_remove (suc i) (x ∷ xs) = elim (swap_remove i xs) [
    | none ↦ none
    | some (a, rest) ↦ some (a, x ∷ rest)
  ]

  -- `Iterator::position`.
  unfoldable pub position : (A → Bool) → List A → Option ℕ
  position p [] = none
  position p (x ∷ xs) =
      let rest = position p xs in
      if p x then some 0 else elim rest [ none ↦ none | some i ↦ some (suc i) ]

module _ {ℓ} {A : Type ℓ} (p : A → Bool) where
  pub exists-All : (xs : List A) → exists p xs ≡ false → All (λ x. p x ≡ false) xs
  exists-All [] h = tt
  exists-All (x ∷ xs) h = (ground arith, exists-All xs (ground arith))

  pub All-exists : (xs : List A) → All (λ x. p x ≡ false) xs → exists p xs ≡ false
  All-exists [] h = refl
  All-exists (x ∷ xs) h = rw h.0 (All-exists xs h.1)

  pub keep_passes : (xs : List A) → All (λ x. p x ≡ true) (keep p xs)
  keep_passes [] = tt
  keep_passes (x ∷ xs) = ground (arith, keep_passes xs)

  pub keep-nil : (xs : List A) → keep p xs ≡ [] → All (λ x. p x ≡ false) xs
  keep-nil [] h = tt
  keep-nil (x ∷ xs) h = ground (arith, keep-nil xs)

  pub keep-All : (xs : List A) → All (λ x. p x ≡ true) xs → keep p xs ≡ xs
  keep-All [] h = refl
  keep-All (x ∷ xs) h = rw (h.0, keep-All xs h.1) refl

-- Two predicates on the members at once.
pub All-both {ℓ κ μ} :
    {A : Type ℓ} (P : A → Type κ) (Q : A → Type μ) (xs : List A)
    → All P xs
    → All Q xs
    → All (λ x. P x × Q x) xs
All-both P Q [] h k = tt
All-both P Q (x ∷ xs) h k = ((h.0, k.0), All-both P Q xs h.1 k.1)

-- A map that respects the relation on members that pass a test.
module _ {ℓ κ μ} {A : Type ℓ} (R : A → A → Type κ) (Q : A → Type μ) (f : A → A)
    (keeps : (x y : A) → Q x → Q y → R x y → R (f x) (f y)) where
  All-map : (x : A) (ys : List A) → Q x → All Q ys → All (R x) ys → All (R (f x)) (map f ys)
  All-map x [] q qs h = tt
  All-map x (y ∷ ys) q qs h = (keeps x y q qs.0 h.0, All-map x ys q qs.1 h.1)

  pub Pairwise-map : (xs : List A) → All Q xs → Pairwise R xs → Pairwise R (map f xs)
  Pairwise-map [] qs h = tt
  Pairwise-map (x ∷ xs) qs h = (All-map x xs qs.0 qs.1 h.0, Pairwise-map xs qs.1 h.1)

pub Pairwise-both {ℓ κ μ} :
    {A : Type ℓ} (R : A → A → Type κ) (S : A → A → Type μ) (xs : List A)
    → Pairwise R xs
    → Pairwise S xs
    → Pairwise (λ x y. R x y × S x y) xs
Pairwise-both R S [] h k = tt
Pairwise-both R S (x ∷ xs) h k = (All-both _ _ xs h.0 k.0, Pairwise-both R S xs h.1 k.1)

pub Pairwise-mono {ℓ κ μ} :
    {A : Type ℓ} (R : A → A → Type κ) (S : A → A → Type μ) (xs : List A)
    → ((x y : A) → R x y → S x y)
    → Pairwise R xs
    → Pairwise S xs
Pairwise-mono R S [] f h = tt
Pairwise-mono R S (x ∷ xs) f h = (All-mono _ _ xs (f x) h.0, Pairwise-mono R S xs f h.1)

-- A test beside one that every kept member passes.
pub exists-keep {ℓ} :
    {A : Type ℓ} (q p : A → Bool) (xs : List A)
    → exists (λ x. q x && p x) (keep p xs) ≡ exists (λ x. q x && p x) xs
exists-keep q p [] = refl
exists-keep q p (x ∷ xs) = ground (arith, exists-keep q p xs)

-- A predicate that no two places share counts at most one.
module _ {ℓ} {A : Type ℓ} (p : A → Bool) where
  pub count-zero : (xs : List A) → All (λ x. p x ≡ false) xs → count p xs ≡ 0
  count-zero [] h = refl
  count-zero (x ∷ xs) h = rw (h.0, count-zero xs h.1) refl

  pub count-exists : (xs : List A) → exists p xs ≡ true → 1 ≤ count p xs
  count-exists [] h = cc
  count-exists (x ∷ xs) h = ground (arith, count-exists xs)

  pub count_le_one : (xs : List A) → Pairwise (λ x y. (p x && p y) ≡ false) xs → count p xs ≤ 1
  count_le_one [] h = omega arith
  count_le_one (x ∷ xs) h = elim (cases (p x) refl) [
    | inl e ↦ rw e (omega (arith, count-zero xs (All-mono _ _ xs (λ y k. ground arith) h.0)))
    | inr e ↦ rw e (count_le_one xs h.1)
  ]
    where
      cases : (b : Bool) → p x ≡ b → (p x ≡ true) ⊎ (p x ≡ false)
      cases true e = inl e
      cases false e = inr e

pub every-All {ℓ} :
    {A : Type ℓ} (p : A → Bool) (xs : List A) → every p xs ≡ true → All (λ x. p x ≡ true) xs
every-All p [] h = tt
every-All p (x ∷ xs) h = (ground arith, every-All p xs (ground arith))
