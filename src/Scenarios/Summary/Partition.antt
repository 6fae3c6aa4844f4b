-- ===== src/Scenarios/Summary/Partition.antt =====
-- How `scenario_summary_for_store` (crates/pengu-mesh-core/src/lib.rs) divides the runs by family.
use pengu_mesh.Prelude.{
  keep-snoc, ◌≡◌, refl, sym, ap, subst, ◌∙◌, inl, inr, Bool, true, false, List, [], ◌∷◌, ◌++◌,
  arith, Bool-cases, if◌then◌else◌, Text, text_eq, text_eq_iff, text_eq_refl, text_eq_sym, ◌||◌,
  All-both, keep, exists, is_empty, All, All-mono, All-append, Pairwise, append_assoc, append-nil,
}
use pengu_mesh.Scenarios.{ScenarioRun, ScenarioStore}
use pengu_mesh.Scenarios.Frozen.{keep-snoc_other}
use pengu_mesh.Scenarios.Summary.{
  FamilySummaryBuilder, new_builder, add_run, add_to_family, summarize,
}
use pengu_mesh.Scenarios.Summary.Families.{Summarises, new_builder-Summarises, add_run-Summarises}

abbrev pub in_family : Text → ScenarioRun → Bool
in_family family r = text_eq r.scenario_family family

abbrev pub has_family : Text → FamilySummaryBuilder → Bool
has_family family b = text_eq b.scenario_family family

-- A builder that has the runs of its family among those seen, at least one.
abbrev Covers : ScenarioStore → List ScenarioRun → FamilySummaryBuilder → Type 0
Covers m seen b =
    Summarises m (keep (in_family b.scenario_family) seen) b
    × (is_empty (keep (in_family b.scenario_family) seen) ≡ false)

add_run_family :
    (m : ScenarioStore) (r : ScenarioRun) (b : FamilySummaryBuilder)
    → (add_run m r b).scenario_family ≡ b.scenario_family
add_run_family m r b = ground arith

nonempty-snoc {ℓ} : {A : Type ℓ} (xs : List A) (a : A) → is_empty (xs ++ a ∷ []) ≡ false
nonempty-snoc [] a = refl
nonempty-snoc (x ∷ xs) a = refl

Covers-add_run :
    (m : ScenarioStore) (seen : List ScenarioRun) (r : ScenarioRun) (b : FamilySummaryBuilder)
    → text_eq b.scenario_family r.scenario_family ≡ true
    → Summarises m (keep (in_family b.scenario_family) seen) b
    → Covers m (seen ++ r ∷ []) (add_run m r b)
Covers-add_run m seen r b e h =
    let same : b.scenario_family ≡ r.scenario_family =
      (text_eq_iff b.scenario_family r.scenario_family).0 e in
    let own : in_family b.scenario_family r ≡ true =
      ap (text_eq r.scenario_family) same ∙ text_eq_refl r.scenario_family in
    let more : keep (in_family b.scenario_family) (seen ++ r ∷ [])
        ≡ keep (in_family b.scenario_family) seen ++ r ∷ [] =
      keep-snoc (in_family b.scenario_family) seen r
      ∙ ap
          (λ k.
            if k
            then keep (in_family b.scenario_family) seen ++ r ∷ []
            else keep (in_family b.scenario_family) seen)
          own in
    let here : keep (in_family (add_run m r b).scenario_family) (seen ++ r ∷ [])
        ≡ keep (in_family b.scenario_family) seen ++ r ∷ [] =
      ap (λ f. keep (in_family f) (seen ++ r ∷ [])) (add_run_family m r b) ∙ more in
    (
      subst (λ k. Summarises m k (add_run m r b)) (sym here) (add_run-Summarises m _ r b h),
      ap is_empty here ∙ nonempty-snoc (keep (in_family b.scenario_family) seen) r,
    )

Covers-other :
    (m : ScenarioStore) (seen : List ScenarioRun) (r : ScenarioRun) (b : FamilySummaryBuilder)
    → text_eq b.scenario_family r.scenario_family ≡ false
    → Covers m seen b
    → Covers m (seen ++ r ∷ []) b
Covers-other m seen r b ne (h, n) =
    let other : in_family b.scenario_family r ≡ false =
      text_eq_sym r.scenario_family b.scenario_family ∙ ne in
    let same = keep-snoc_other (in_family b.scenario_family) seen r other in
    (subst (λ k. Summarises m k b) (sym same) h, ap is_empty same ∙ n)

add_to_family-Covers :
    (m : ScenarioStore) (seen : List ScenarioRun) (r : ScenarioRun) (bs : List FamilySummaryBuilder)
    → All (Covers m seen) bs
    → Pairwise (λ b c. text_eq b.scenario_family c.scenario_family ≡ false) bs
    → (exists (has_family r.scenario_family) bs ≡ false
        → keep (in_family r.scenario_family) seen ≡ [])
    → All (Covers m (seen ++ r ∷ [])) (add_to_family m r bs)
unfolding add_to_family
add_to_family-Covers m seen r [] h d fresh =
    let b = new_builder r.scenario_family in
    (
      Covers-add_run m seen r b (text_eq_refl r.scenario_family) (
          subst (λ k. Summarises m k b) (sym (fresh refl))
            (new_builder-Summarises m r.scenario_family)),
      tt,
    )
add_to_family-Covers m seen r (b ∷ bs) h d fresh =
    elim (Bool-cases (text_eq b.scenario_family r.scenario_family)) [
      | inl e ↦
          let same : b.scenario_family ≡ r.scenario_family =
            (text_eq_iff b.scenario_family r.scenario_family).0 e in
          rw e (
            Covers-add_run m seen r b e h.0.0,
            All-mono _ _ bs
                (λ c (k, ne).
                  Covers-other m seen r c
                    (text_eq_sym c.scenario_family r.scenario_family
                      ∙ ap (λ f. text_eq f c.scenario_family) (sym same)
                      ∙ ne)
                    k)
                (All-both _ _ bs h.1 d.0),
          )
      | inr e ↦ rw e (
        Covers-other m seen r b e h.0,
        add_to_family-Covers m seen r bs h.1 d.1 (λ f. fresh (ground arith)),
      )
    ]

-- A family that no builder has stays apart from those that are added.
add_to_family-apart :
    (m : ScenarioStore) (r : ScenarioRun) (f : Text) (bs : List FamilySummaryBuilder)
    → text_eq f r.scenario_family ≡ false
    → All (λ c. text_eq f c.scenario_family ≡ false) bs
    → All (λ c. text_eq f c.scenario_family ≡ false) (add_to_family m r bs)
unfolding add_to_family
add_to_family-apart m r f [] ne h =
    (ap (text_eq f) (add_run_family m r (new_builder r.scenario_family)) ∙ ne, tt)
add_to_family-apart m r f (b ∷ bs) ne h =
    elim (Bool-cases (text_eq b.scenario_family r.scenario_family)) [
      | inl e ↦ rw e (ap (text_eq f) (add_run_family m r b) ∙ h.0, h.1)
      | inr e ↦ rw e (h.0, add_to_family-apart m r f bs ne h.1)
    ]

add_to_family-distinct :
    (m : ScenarioStore) (r : ScenarioRun) (bs : List FamilySummaryBuilder)
    → Pairwise (λ b c. text_eq b.scenario_family c.scenario_family ≡ false) bs
    → Pairwise (λ b c. text_eq b.scenario_family c.scenario_family ≡ false) (add_to_family m r bs)
unfolding add_to_family
add_to_family-distinct m r [] d = (tt, tt)
add_to_family-distinct m r (b ∷ bs) d =
    elim (Bool-cases (text_eq b.scenario_family r.scenario_family)) [
      | inl e ↦ rw e (
        subst (λ f. All (λ c. text_eq f c.scenario_family ≡ false) bs) (sym (add_run_family m r b))
            d.0,
        d.1,
      )
      | inr e ↦
          rw e
            (add_to_family-apart m r b.scenario_family bs e d.0, add_to_family-distinct m r bs d.1)
    ]

-- The family of the run that is added is there, and no other goes.
add_to_family-exists :
    (m : ScenarioStore) (r : ScenarioRun) (f : Text) (bs : List FamilySummaryBuilder)
    → exists (has_family f) (add_to_family m r bs)
      ≡ (text_eq r.scenario_family f || exists (has_family f) bs)
unfolding add_to_family
add_to_family-exists m r f [] = ground (arith, add_run_family m r (new_builder r.scenario_family))
add_to_family-exists m r f (b ∷ bs) =
    elim (Bool-cases (text_eq b.scenario_family r.scenario_family)) [
      | inl e ↦
          let same : b.scenario_family ≡ r.scenario_family =
            (text_eq_iff b.scenario_family r.scenario_family).0 e in
          rw e (ground (arith, add_run_family m r b, ap (λ k. text_eq k f) same))
      | inr e ↦ rw e (ground (arith, add_to_family-exists m r f bs))
    ]

pub record Partition (m : ScenarioStore) (seen : List ScenarioRun) (bs : List FamilySummaryBuilder)
    : Type 0 where
  pub covers : All (Covers m seen) bs
  pub distinct : Pairwise (λ b c. text_eq b.scenario_family c.scenario_family ≡ false) bs
  pub present : All (λ r. exists (has_family r.scenario_family) bs ≡ true) seen

no_runs :
    (seen : List ScenarioRun) (bs : List FamilySummaryBuilder) (f : Text)
    → All (λ r. exists (has_family r.scenario_family) bs ≡ true) seen
    → exists (has_family f) bs ≡ false
    → keep (in_family f) seen ≡ []
no_runs [] bs f h n = refl
no_runs (r ∷ seen) bs f h n = elim (Bool-cases (in_family f r)) [
  | inl e ↦
      let same : exists (has_family r.scenario_family) bs ≡ exists (has_family f) bs =
        ap (λ k. exists (has_family k) bs) ((text_eq_iff r.scenario_family f).0 e) in
      absurd (ground (arith, same, h.0, n))
  | inr e ↦ rw e (no_runs seen bs f h.1 n)
]

add_to_family-Partition :
    (m : ScenarioStore) (seen : List ScenarioRun) (r : ScenarioRun) (bs : List FamilySummaryBuilder)
    → Partition m seen bs
    → Partition m (seen ++ r ∷ []) (add_to_family m r bs)
add_to_family-Partition m seen r bs p = record {
  covers =
      add_to_family-Covers m seen r bs p.covers p.distinct
        (no_runs seen bs r.scenario_family p.present);
  distinct = add_to_family-distinct m r bs p.distinct;
  present =
      All-append _ seen (r ∷ [])
        (All-mono _ _ seen (λ x h. ground (arith, h, add_to_family-exists m r x.scenario_family bs))
          p.present)
        (
          ground (
            arith,
            text_eq_refl r.scenario_family,
            add_to_family-exists m r r.scenario_family bs,
          ),
          tt,
        );
}

pub summarize-Partition :
    (m : ScenarioStore) (seen runs : List ScenarioRun) (bs : List FamilySummaryBuilder)
    → Partition m seen bs
    → Partition m (seen ++ runs) (summarize m runs bs)
unfolding summarize
summarize-Partition m seen [] bs p = subst (λ k. Partition m k bs) (sym (append-nil seen)) p
summarize-Partition m seen (r ∷ runs) bs p =
    subst (λ k. Partition m k (summarize m runs (add_to_family m r bs)))
      (append_assoc seen (r ∷ []) runs)
      (summarize-Partition m (seen ++ r ∷ []) runs (add_to_family m r bs)
        (add_to_family-Partition m seen r bs p))
