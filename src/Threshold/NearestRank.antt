-- ===== src/Threshold/NearestRank.antt =====
-- `percentile` of crates/pengu-mesh-core/src/threshold.rs and the ranks of samples.
use pengu_mesh.Prelude.{
  ℕ, ◌-◌, ◌≤◌, ◌<◌, ◌≡◌, refl, sym, ap, ◌∙◌, min, inl, inr, false, some, List, [], ◌∷◌, arith, leb,
  ltb, Bool-cases, length, get_elem?, is_empty, count,
}
use pengu_mesh.Threshold.{sort_samples, percentile}
use pengu_mesh.Threshold.Sorting.{
  sort_samples-Sorted, count-sort_samples, length-sort_samples, value_ranks, get_elem_some,
}

pub length_pos : {A : Type 0} (xs : List A) → is_empty xs ≡ false → 0 < length xs
length_pos [] e = cc
length_pos (x ∷ xs) e = omega arith

module _ (rank : ℕ → ℕ → ℕ) where
  -- The percentile of any list is a value: the index is never out of bounds.
  pub percentile-some : (xs : List ℕ) (p : ℕ) → (v : ℕ) × (percentile rank xs p ≡ some v)
  unfolding percentile
  percentile-some xs p = elim (Bool-cases (is_empty xs)) [
    | inl e ↦ rw e (0, refl)
    | inr e ↦
        let n : 0 < length xs = length_pos xs e in
        rw e (get_elem_some xs (min (rank p (length xs) - 1) (length xs - 1)) (omega arith))
  ]

  percentile_at :
      (xs : List ℕ) (p : ℕ)
      → 1 ≤ rank p (length xs)
      → rank p (length xs) ≤ length xs
      → percentile rank xs p ≡ get_elem? xs (rank p (length xs) - 1)
  unfolding percentile
  percentile_at [] p h k = absurd (omega arith)
  percentile_at (x ∷ xs) p h k =
      let i : min (rank p (length (x ∷ xs)) - 1) (length (x ∷ xs) - 1)
          ≡ rank p (length (x ∷ xs)) - 1 =
        omega arith in
      ap (get_elem? (x ∷ xs)) i

  -- Where the rank of a percentage is one of the ranks of the samples, its percentile is the value
  -- of that rank: at least so many samples are not above it, and fewer are below it.
  pub percentile_nearest_rank :
      (samples : List ℕ) (p : ℕ)
      → 1 ≤ rank p (length samples)
      → rank p (length samples) ≤ length samples
      → (v : ℕ) × (percentile rank (sort_samples samples) p ≡ some v)
        × (rank p (length samples) ≤ count (λ s. leb s v) samples)
        × (count (λ s. ltb s v) samples < rank p (length samples))
  percentile_nearest_rank samples p h k =
      let sorted = sort_samples samples in
      let n : length sorted ≡ length samples = length-sort_samples samples in
      let (v, e) = percentile-some sorted p in
      let at : percentile rank sorted p ≡ get_elem? sorted (rank p (length sorted) - 1) =
        percentile_at sorted p (rw n h) (rw n k) in
      let (above, below) =
        value_ranks sorted (rank p (length sorted) - 1) v (sort_samples-Sorted samples)
          (sym at ∙ e) in
      (
        v,
        e,
        omega (arith, above, ap (rank p) n, count-sort_samples (λ s. leb s v) samples),
        omega (arith, below, ap (rank p) n, count-sort_samples (λ s. ltb s v) samples),
      )
