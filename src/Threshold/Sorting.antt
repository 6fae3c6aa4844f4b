-- ===== src/Threshold/Sorting.antt =====
-- What the sorted samples are (crates/pengu-mesh-core/src/threshold.rs).
use pengu_mesh.Prelude.{
  ℕ, zero, suc, ◌≤◌, ◌<◌, ◌≡◌, refl, ap, subst, ◌∙◌, inl, inr, Bool, some, List, [], ◌∷◌, arith,
  leb, ltb, Bool-cases, length, get_elem?, count, All, All-mono,
}
use pengu_mesh.Threshold.{insert_sample, sort_samples}

abbrev pub Sorted : List ℕ → Type 0
Sorted [] = Unit
Sorted (x ∷ xs) = All (λ y. x ≤ y) xs × Sorted xs

pub insert_sample-All :
    (P : ℕ → Type 0) (x : ℕ) (ys : List ℕ) → P x → All P ys → All P (insert_sample x ys)
unfolding insert_sample
insert_sample-All P x [] h k = (h, tt)
insert_sample-All P x (y ∷ ys) h k = elim (Bool-cases (leb x y)) [
  | inl e ↦ rw e (h, k)
  | inr e ↦ rw e (k.0, insert_sample-All P x ys h k.1)
]

insert_sample-Sorted : (x : ℕ) (ys : List ℕ) → Sorted ys → Sorted (insert_sample x ys)
unfolding insert_sample
insert_sample-Sorted x [] s = (tt, tt)
insert_sample-Sorted x (y ∷ ys) s = elim (Bool-cases (leb x y)) [
  | inl e ↦
      let le : x ≤ y = ground arith in rw e ((le, All-mono _ _ ys (λ z h. omega arith) s.0), s)
  | inr e ↦ rw e (insert_sample-All _ x ys (ground arith) s.0, insert_sample-Sorted x ys s.1)
]

pub sort_samples-Sorted : (xs : List ℕ) → Sorted (sort_samples xs)
unfolding sort_samples
sort_samples-Sorted [] = tt
sort_samples-Sorted (x ∷ xs) = insert_sample-Sorted x (sort_samples xs) (sort_samples-Sorted xs)

count-insert_sample :
    (p : ℕ → Bool) (x : ℕ) (ys : List ℕ) → count p (insert_sample x ys) ≡ count p (x ∷ ys)
unfolding insert_sample
count-insert_sample p x [] = refl
count-insert_sample p x (y ∷ ys) = ground (arith, count-insert_sample p x ys)

pub count-sort_samples : (p : ℕ → Bool) (xs : List ℕ) → count p (sort_samples xs) ≡ count p xs
unfolding sort_samples
count-sort_samples p [] = refl
count-sort_samples p (x ∷ xs) =
    ground (arith, count-insert_sample p x (sort_samples xs), count-sort_samples p xs)

length-insert_sample : (x : ℕ) (ys : List ℕ) → length (insert_sample x ys) ≡ suc (length ys)
unfolding insert_sample
length-insert_sample x [] = refl
length-insert_sample x (y ∷ ys) = ground (arith, length-insert_sample x ys)

pub length-sort_samples : (xs : List ℕ) → length (sort_samples xs) ≡ length xs
unfolding sort_samples
length-sort_samples [] = refl
length-sort_samples (x ∷ xs) =
    length-insert_sample x (sort_samples xs) ∙ ap suc (length-sort_samples xs)

count-below_none : (x : ℕ) (ys : List ℕ) → All (λ y. x ≤ y) ys → count (λ y. ltb y x) ys ≡ 0
count-below_none x [] h = refl
count-below_none x (y ∷ ys) h = ground (arith, count-below_none x ys h.1, h.0)

pub get_elem-All :
    (P : ℕ → Type 0) (xs : List ℕ) (i v : ℕ) → All P xs → get_elem? xs i ≡ some v → P v
get_elem-All P [] i v h e = cc
get_elem-All P (x ∷ xs) zero v h e = subst P (some_eq e) h.0
  where
    some_eq : some x ≡ some v → x ≡ v
    some_eq q = cc
get_elem-All P (x ∷ xs) (suc i) v h e = get_elem-All P xs i v h.1 e

-- The value at an index of a sorted list: so many are below it, and so many are not above it.
pub value_ranks :
    (xs : List ℕ) (i v : ℕ)
    → Sorted xs
    → get_elem? xs i ≡ some v
    → (i < count (λ y. leb y v) xs) × (count (λ y. ltb y v) xs ≤ i)
value_ranks [] i v s e = cc
value_ranks (x ∷ xs) zero v s e = ground (arith, count-below_none x xs s.0)
value_ranks (x ∷ xs) (suc i) v s e =
    let le : x ≤ v = get_elem-All _ xs i v s.0 e in ground (arith, value_ranks xs i v s.1 e)

pub get_elem_some : (xs : List ℕ) (i : ℕ) → i < length xs → (v : ℕ) × (get_elem? xs i ≡ some v)
get_elem_some [] i h = absurd (omega arith)
get_elem_some (x ∷ xs) zero h = (x, refl)
get_elem_some (x ∷ xs) (suc i) h = get_elem_some xs i (omega arith)
