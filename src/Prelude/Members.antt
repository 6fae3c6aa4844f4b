-- ===== src/Prelude/Members.antt =====
-- Members of lists, and the tests that they pass.
use mathlib.Core.Path.{◌≡◌, refl, sym, ap, ◌∙◌, subst}
use mathlib.Core.Logic.{◌⊎◌, inl, inr}
use mathlib.Core.Bool.{Bool, true, false}
use mathlib.Core.Option.{some}
use mathlib.Core.List.{List, [], ◌∷◌, ◌++◌, Memᴰ}
use native.Mathlib.Omega.{arith}
use pengu_mesh.Prelude.Tests.{if◌then◌else◌, Bool-cases}
use pengu_mesh.Prelude.Lists.{keep, exists, find_first, All, Pairwise, keep_passes}
use pengu_mesh.Prelude.Removal.{All-mem}

pub true-false : {b : Bool} → b ≡ true → b ≡ false → ⊥
true-false h k = cc

module _ {ℓ} {A : Type ℓ} where
  kept_cases :
      {a : A} (x : A) (ys : List A) (b : Bool)
      → Memᴰ a (if b then x ∷ ys else ys)
      → (a ≡ x) ⊎ Memᴰ a ys
  kept_cases x ys true (Memᴰ.head e) = inl e
  kept_cases x ys true (Memᴰ.tail m) = inr m
  kept_cases x ys false m = inr m

  pub snoc-mem : (a : A) (xs : List A) → Memᴰ a (xs ++ a ∷ [])
  snoc-mem a [] = Memᴰ.head refl
  snoc-mem a (x ∷ xs) = Memᴰ.tail (snoc-mem a xs)

  pub append_left-mem : {a : A} (xs ys : List A) → Memᴰ a xs → Memᴰ a (xs ++ ys)
  append_left-mem _ ys (Memᴰ.head e) = Memᴰ.head e
  append_left-mem _ ys (Memᴰ.tail {xs = xs} m) = Memᴰ.tail (append_left-mem xs ys m)

  -- Related members at two places cannot be the same when no two places are related.
  pub Pairwise-unique :
      (f : A → A → Bool) {a b : A} (xs : List A)
      → Pairwise (λ x y. f x y ≡ false) xs
      → Memᴰ a xs
      → Memᴰ b xs
      → f a b ≡ true
      → f b a ≡ true
      → a ≡ b
  Pairwise-unique f {a} {b} _ h (Memᴰ.head e) (Memᴰ.head d) q r = e ∙ sym d
  Pairwise-unique f {a} {b} _ h (Memᴰ.head e) (Memᴰ.tail m) q r =
      absurd (true-false (subst (λ y. f y b ≡ true) e q) (All-mem _ h.0 m))
  Pairwise-unique f {a} {b} _ h (Memᴰ.tail m) (Memᴰ.head d) q r =
      absurd (true-false (subst (λ y. f y a ≡ true) d r) (All-mem _ h.0 m))
  Pairwise-unique f {a} {b} _ h (Memᴰ.tail {xs = xs} m) (Memᴰ.tail k) q r =
      Pairwise-unique f xs h.1 m k q r

module _ {ℓ} {A : Type ℓ} (p : A → Bool) where
  pub keep-mem : {a : A} (xs : List A) → Memᴰ a (keep p xs) → Memᴰ a xs
  keep-mem [] m = elim m [ ]
  keep-mem (x ∷ xs) m = elim (kept_cases x (keep p xs) (p x) m) [
    | inl e ↦ Memᴰ.head e
    | inr k ↦ Memᴰ.tail (keep-mem xs k)
  ]

  pub kept_passes : {a : A} (xs : List A) → Memᴰ a (keep p xs) → p a ≡ true
  kept_passes xs m = All-mem _ (keep_passes p xs) m

  pub mem-keep : {a : A} (xs : List A) → Memᴰ a xs → p a ≡ true → Memᴰ a (keep p xs)
  mem-keep _ (Memᴰ.head {x = x} {xs = xs} e) h = rw (subst (λ y. p y ≡ true) e h) (Memᴰ.head e)
  mem-keep _ (Memᴰ.tail {x = x} {xs = xs} m) h = elim (Bool-cases (p x)) [
    | inl e ↦ rw e (Memᴰ.tail (mem-keep xs m h))
    | inr e ↦ rw e (mem-keep xs m h)
  ]

  pub mem-exists : {a : A} (xs : List A) → Memᴰ a xs → p a ≡ true → exists p xs ≡ true
  mem-exists _ (Memᴰ.head {x = x} e) h = rw (subst (λ y. p y ≡ true) e h) refl
  mem-exists _ (Memᴰ.tail {x = x} {xs = xs} m) h = ground (arith, mem-exists xs m h)

  pub exists-mem : (xs : List A) → exists p xs ≡ true → (a : A) × Memᴰ a xs × (p a ≡ true)
  exists-mem [] h = cc
  exists-mem (x ∷ xs) h = elim (Bool-cases (p x)) [
    | inl e ↦ (x, Memᴰ.head refl, e)
    | inr e ↦ let (a, m, q) = exists-mem xs (ground arith) in (a, Memᴰ.tail m, q)
  ]

pub All-of-mem {ℓ κ} :
    {A : Type ℓ} (P : A → Type κ) (xs : List A) → ((x : A) → Memᴰ x xs → P x) → All P xs
All-of-mem P [] h = tt
All-of-mem P (x ∷ xs) h = (h x (Memᴰ.head refl), All-of-mem P xs (λ y m. h y (Memᴰ.tail m)))

pub find_first-mem {ℓ} :
    {A : Type ℓ} (p : A → Bool) (xs : List A) {a : A}
    → find_first p xs ≡ some a
    → Memᴰ a xs × (p a ≡ true)
find_first-mem p [] h = cc
find_first-mem p (x ∷ xs) {a} h = elim (Bool-cases (p x)) [
  | inl e ↦
      let same : x ≡ a = ground arith in (Memᴰ.head (sym same), subst (λ y. p y ≡ true) same e)
  | inr e ↦ let r = find_first-mem p xs (ground arith) in (Memᴰ.tail r.0, r.1)
]

pub keep-snoc {ℓ} :
    {A : Type ℓ} (p : A → Bool) (xs : List A) (a : A)
    → keep p (xs ++ a ∷ []) ≡ (if p a then keep p xs ++ a ∷ [] else keep p xs)
keep-snoc p [] a = refl
keep-snoc p (x ∷ xs) a = ground (arith, keep-snoc p xs a)

pub keep-All_inverse {ℓ} :
    {A : Type ℓ} (p : A → Bool) (P : A → Type 0) (xs : List A)
    → All P (keep p xs)
    → All (λ x. p x ≡ true → P x) xs
keep-All_inverse p P [] h = tt
keep-All_inverse p P (x ∷ xs) h = elim (Bool-cases (p x)) [
  | inl e ↦
      let (a, b) = subst (All P) (ap (λ k. if k then x ∷ keep p xs else keep p xs) e) h in
      (λ _. a, keep-All_inverse p P xs b)
  | inr e ↦ (
    λ f. absurd (ground (arith, e, f)),
    keep-All_inverse p P xs (subst (All P) (ap (λ k. if k then x ∷ keep p xs else keep p xs) e) h),
  )
]
