-- ===== src/Threshold/Budgets.antt =====
-- When a threshold of crates/pengu-mesh-core/src/threshold.rs passes.
use pengu_mesh.Prelude.{
  ℕ, ◌-◌, ◌≤◌, ◌<◌, ◌≡◌, refl, sym, subst, ◌∙◌, inl, inr, ◌↔◌, Bool, true, false, Option, none,
  some, List, [], ◌∷◌, ◌++◌, arith, leb, ltb, Bool-cases, Text, codes, length, get_elem?, is_empty,
  count, count-le-length, All, All-mono,
}
use pengu_mesh.Threshold.{
  PerformanceThreshold, ThresholdViolation, ThresholdResult, sort_samples, check_value, then_check,
  result_of, percentile, evaluate_threshold,
}
use pengu_mesh.Threshold.Sorting.{
  sort_samples-Sorted, count-sort_samples, length-sort_samples, value_ranks, get_elem_some,
  get_elem-All, insert_sample-All,
}
use pengu_mesh.Threshold.NearestRank.{percentile-some, length_pos}

-- The checks do not panic, and find no violation exactly under a condition.
abbrev Passes : Option (List ThresholdViolation) → Type 0 → Type 0
Passes o P = (vs : List ThresholdViolation) × (o ≡ some vs) × ((is_empty vs ≡ true) ↔ P)

abbrev pub WithinBudget : Option ℕ → ℕ → Type 0
WithinBudget budget v = (b : ℕ) → budget ≡ some b → v ≤ b

append_empty :
    (xs ys : List ThresholdViolation)
    → (is_empty (xs ++ ys) ≡ true) ↔ ((is_empty xs ≡ true) × (is_empty ys ≡ true))
append_empty [] ys = (λ h. (refl, h), λ h. h.1)
append_empty (x ∷ xs) ys = (λ h. cc, λ h. cc)

then_check-Passes :
    (P Q : Type 0) (o o' : Option (List ThresholdViolation))
    → Passes o P
    → Passes o' Q
    → Passes (then_check o o') (P × Q)
then_check-Passes P Q o o' (xs, e, f) (ys, e', f') =
    rw (e, e')
      (
        xs ++ ys,
        refl,
        (
          λ h. let (a, b) = (append_empty xs ys).0 h in (f.0 a, f'.0 b),
          λ h. (append_empty xs ys).1 (f.1 h.0, f'.1 h.1),
        ),
      )

check_value-Passes :
    (t : PerformanceThreshold) (label : Text) (budget actual : Option ℕ) (v : ℕ)
    → actual ≡ some v
    → Passes (check_value t label budget actual) (WithinBudget budget v)
check_value-Passes t label none actual v e = ([], refl, (λ h b q. cc, λ h. refl))
check_value-Passes t label (some budget) actual v e = elim (Bool-cases (ltb budget v)) [
  | inl over ↦ rw (e, over) (_, refl, (λ h. cc, λ h. absurd (ground (arith, h budget refl))))
  | inr within ↦ rw (e, within) ([], refl, (λ h b q. ground arith, λ h. refl))
]

sort_samples-All : (P : ℕ → Type 0) (xs : List ℕ) → All P xs → All P (sort_samples xs)
unfolding sort_samples
sort_samples-All P [] h = tt
sort_samples-All P (x ∷ xs) h =
    insert_sample-All P x (sort_samples xs) h.0 (sort_samples-All P xs h.1)

count_full : (p : ℕ → Bool) (xs : List ℕ) → length xs ≤ count p xs → All (λ x. p x ≡ true) xs
count_full p [] h = tt
count_full p (x ∷ xs) h = elim (Bool-cases (p x)) [
  | inl e ↦ (e, count_full p xs (ground (arith, e)))
  | inr e ↦ absurd (ground (arith, e, count-le-length p xs))
]

-- The last of the sorted samples is within a budget exactly when all samples are.
last_max :
    (samples : List ℕ) (m budget : ℕ)
    → get_elem? (sort_samples samples) (length (sort_samples samples) - 1) ≡ some m
    → (WithinBudget (some budget) m) ↔ (All (λ s. s ≤ budget) samples)
last_max samples m budget e = (
  λ h.
      let le : m ≤ budget = h budget refl in
      let (above, _) = value_ranks (sort_samples samples) _ m (sort_samples-Sorted samples) e in
      All-mono _ _ samples (λ s k. ground arith)
        (count_full (λ s. leb s m) samples
          (omega (
            arith,
            above,
            length-sort_samples samples,
            count-sort_samples (λ s. leb s m) samples,
          ))),
  λ h b q.
      let le : m ≤ budget =
        get_elem-All _ (sort_samples samples) _ m (sort_samples-All _ samples h) e in
      ground arith,
)

-- The budgets of a threshold, on its samples.
abbrev pub WithinAll : (ℕ → ℕ → ℕ) → PerformanceThreshold → List ℕ → Type 0
WithinAll rank t samples =
    All (λ s. s ≤ t.max_ms) samples
    × ((v : ℕ) → percentile rank (sort_samples samples) 50 ≡ some v → WithinBudget t.p50_ms v)
    × ((v : ℕ) → percentile rank (sort_samples samples) 95 ≡ some v → WithinBudget t.p95_ms v)
    × ((v : ℕ) → percentile rank (sort_samples samples) 99 ≡ some v → WithinBudget t.p99_ms v)

module _ (rank : ℕ → ℕ → ℕ) (t : PerformanceThreshold) where
  percentile-Passes :
      (label : Text) (budget : Option ℕ) (sorted : List ℕ) (p : ℕ)
      → Passes
          (check_value t label budget (percentile rank sorted p))
          ((v : ℕ) → percentile rank sorted p ≡ some v → WithinBudget budget v)
  percentile-Passes label budget sorted p =
      let (v, e) = percentile-some rank sorted p in
      let (vs, found, iff) = check_value-Passes t label budget (percentile rank sorted p) v e in
      (
        vs,
        found,
        (
          λ h v' e' b q. subst (λ k. k ≤ b) (same v v' (sym e ∙ e')) (iff.0 h b q),
          λ h. iff.1 (h v e),
        ),
      )
    where
      same : (v v' : ℕ) → some v ≡ some v' → v ≡ v'
      same v v' q = cc

  max-Passes :
      (samples : List ℕ)
      → is_empty samples ≡ false
      → Passes
          (check_value t
            (codes "max")
            (some t.max_ms)
            (get_elem? (sort_samples samples) (length (sort_samples samples) - 1)))
          (All (λ s. s ≤ t.max_ms) samples)
  max-Passes samples n =
      let long : 0 < length samples = length_pos samples n in
      let (m, e) =
        get_elem_some (sort_samples samples) (length (sort_samples samples) - 1)
          (omega (arith, length-sort_samples samples)) in
      let (vs, found, iff) = check_value-Passes t (codes "max") (some t.max_ms) _ m e in
      let is_max = last_max samples m t.max_ms e in
      (vs, found, (λ h. is_max.0 (iff.0 h), λ h. iff.1 (is_max.1 h)))

  result-Passes :
      (n : ℕ) (P : Type 0) (o : Option (List ThresholdViolation))
      → Passes o P
      → (r : ThresholdResult) × (result_of t n o ≡ some r)
        × (r.samples_evaluated ≡ n)
        × ((r.passed ≡ true) ↔ P)
  result-Passes n P o (vs, e, iff) = rw e (_, refl, refl, iff)

  full :
      (samples : List ℕ)
      → is_empty samples ≡ false
      → (r : ThresholdResult) × (evaluate_threshold rank t samples ≡ some r)
        × (r.samples_evaluated ≡ length samples)
        × ((r.passed ≡ true) ↔ WithinAll rank t samples)
  unfolding evaluate_threshold
  full samples n =
      let s = sort_samples samples in
      let (r, e, k, iff) = result-Passes (length samples) _ _ (
        then_check-Passes _ _ _ _
          (then_check-Passes _ _ _ _
            (then_check-Passes _ _ _ _ (max-Passes samples n)
              (percentile-Passes (codes "p50") t.p50_ms s 50))
            (percentile-Passes (codes "p95") t.p95_ms s 95))
          (percentile-Passes (codes "p99") t.p99_ms s 99)) in
      rw n (
        r,
        e,
        k,
        (λ h. let (((a, b), c), d) = iff.0 h in (a, b, c, d), λ h. iff.1 (((h.0, h.1), h.2), h.3)),
      )

-- The evaluation of a threshold does not panic. On samples, it passes exactly when no sample is over
-- the maximum and no percentile with a budget is over it; without samples it passes.
pub evaluate_threshold_lem :
    (rank : ℕ → ℕ → ℕ) (t : PerformanceThreshold) (samples : List ℕ)
    → (r : ThresholdResult) × (evaluate_threshold rank t samples ≡ some r)
      × (r.samples_evaluated ≡ length samples)
      × ((r.passed ≡ true) ↔ WithinAll rank t samples)
unfolding evaluate_threshold percentile sort_samples
evaluate_threshold_lem rank t [] = (
  _,
  refl,
  refl,
  (λ h. (tt, λ v e b q. ground arith, λ v e b q. ground arith, λ v e b q. ground arith), λ h. refl),
)
evaluate_threshold_lem rank t (x ∷ xs) = full rank t (x ∷ xs) refl
