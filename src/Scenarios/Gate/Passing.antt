-- ===== src/Scenarios/Gate/Passing.antt =====
-- What `scenario_gate` (crates/pengu-mesh-core/src/lib.rs) checks, read off the summary and off the runs.
use pengu_mesh.Prelude.{
  ℕ, ◌≤◌, ◌≡◌, refl, sym, ap, ◌∙◌, ◌↔◌, leb, Bool, true, false, ◌&&◌, Option, none, some, List, [],
  ◌∷◌, ◌++◌, map, arith, Text, text_eq, text_eq_iff, length, keep, exists, every, every-All,
  is_empty, All, All-mono, All-mem, Memᴰ, keep-mem, kept_passes, exists-mem,
}
use pengu_mesh.Scenarios.{ScenarioRun, ScenarioStore}
use pengu_mesh.Scenarios.Listing.{list_scenario_runs}
use pengu_mesh.Scenarios.Summary.{
  FamilySummaryBuilder, FamilySummary, summarize, finish_family, is_failure,
  list_scenario_assertions, clamp_limit, scenario_summary,
}
use pengu_mesh.Scenarios.Summary.Families.{total, Latest}
use pengu_mesh.Scenarios.Summary.Partition.{in_family}
use pengu_mesh.Scenarios.Summary.Described.{
  Describes, summarize-failures, finish_failures, scenario_summary_lem,
}
use pengu_mesh.Scenarios.Gate.{all_some, threshold_checks, sum_failures}
use pengu_mesh.Scenarios.Gate.Samples.{of_metric}
use pengu_mesh.Threshold.{PerformanceThreshold, ThresholdResult, evaluate_thresholds}
use pengu_mesh.Threshold.Budgets.{WithinAll, evaluate_threshold_lem}

abbrev pub first_of {ℓ} : {A : Type ℓ} → List A → Option A
first_of [] = none
first_of (x ∷ xs) = some x

pub and_iff : (a b : Bool) → ((a && b) ≡ true) ↔ ((a ≡ true) × (b ≡ true))
and_iff true b = (λ h. (refl, h), λ h. h.1)
and_iff false b = (λ h. cc, λ h. h.0)

pub every-append {ℓ} :
    {A : Type ℓ} (p : A → Bool) (xs ys : List A) → every p (xs ++ ys) ≡ (every p xs && every p ys)
every-append p [] ys = refl
every-append p (x ∷ xs) ys = ground (arith, every-append p xs ys)

All-every {ℓ} :
    {A : Type ℓ} (p : A → Bool) (xs : List A) → All (λ x. p x ≡ true) xs → every p xs ≡ true
All-every p [] h = refl
All-every p (x ∷ xs) h = (and_iff (p x) (every p xs)).1 (h.0, All-every p xs h.1)

-- A threshold with enough samples, all budgets of which hold.
abbrev pub MeetsThreshold : (ℕ → ℕ → ℕ) → ℕ → (Text → List ℕ) → PerformanceThreshold → Type 0
MeetsThreshold rank n samples t =
    (n ≤ length (samples t.metric)) × WithinAll rank t (samples t.metric)

pub threshold_checks_lem :
    (rank : ℕ → ℕ → ℕ) (n : ℕ) (samples : List (Text × List ℕ)) (ts : List PerformanceThreshold)
    → (rs : List ThresholdResult) × (all_some (evaluate_thresholds rank ts samples) ≡ some rs)
      × ((every (λ c. c.passed) (threshold_checks n rs) ≡ true)
          ↔ All (MeetsThreshold rank n (λ k. of_metric k samples)) ts)
unfolding evaluate_thresholds
threshold_checks_lem rank n samples [] = ([], refl, (λ h. tt, λ h. refl))
threshold_checks_lem rank n samples (t ∷ ts) =
    let (r, e, size, iff) = evaluate_threshold_lem rank t (of_metric t.metric samples) in
    let (rs, e', iff') = threshold_checks_lem rank n samples ts in
    rw (e, e')
      (
        r ∷ rs,
        refl,
        (
          λ h.
              let (a, b) =
                (and_iff (leb n r.samples_evaluated)
                    (r.passed && every (λ c. c.passed) (threshold_checks n rs))).0
                  h in
              let (c, d) = (and_iff r.passed (every (λ c. c.passed) (threshold_checks n rs))).0 b in
              ((ground (arith, size, a), iff.0 c), iff'.0 d),
          λ h.
              (and_iff (leb n r.samples_evaluated) _).1
                (ground (arith, size, h.0.0), (and_iff r.passed _).1 (iff.1 h.0.1, iff'.1 h.1)),
        ),
      )

-- A test of a family's summary that reads the latest run of the family only.
abbrev pub ReadsLatest : (FamilySummary → Bool) → (ScenarioRun → Bool) → Type 0
ReadsLatest p q =
    (f : FamilySummary) (r : ScenarioRun) (rs : List ScenarioRun)
    → Latest (r ∷ rs) f.latest_run_id f.latest_status f.latest_started_at f.latest_commit_sha
    → p f ≡ q r

-- The first of the runs of a family has a property.
abbrev pub OnFirst : List ScenarioRun → (ScenarioRun → Bool) → Type 0
OnFirst runs q =
    (k : Text) (r : ScenarioRun) → first_of (keep (in_family k) runs) ≡ some r → q r ≡ true

first-Latest :
    (own : List ScenarioRun) (f : FamilySummary) (p : FamilySummary → Bool) (q : ScenarioRun → Bool)
    → ReadsLatest p q
    → Latest own f.latest_run_id f.latest_status f.latest_started_at f.latest_commit_sha
    → is_empty own ≡ false
    → (r : ScenarioRun) × (first_of own ≡ some r) × (p f ≡ q r)
first-Latest [] f p q reads l n = cc
first-Latest (r ∷ rs) f p q reads l n = (r, refl, reads f r rs l)

first-mem {ℓ} : {A : Type ℓ} (xs : List A) {a : A} → first_of xs ≡ some a → Memᴰ a xs
first-mem [] e = cc
first-mem (x ∷ xs) {a} e = let same : a ≡ x = cc in Memᴰ.head same

module _ (m : ScenarioStore) (family : Option Text) (limit : ℕ) where
  abbrev pub listed : List ScenarioRun
  listed = list_scenario_runs m family (clamp_limit limit)

  abbrev pub families : List FamilySummary
  families = (scenario_summary m family limit).families

  pub every_family :
      (p : FamilySummary → Bool) (q : ScenarioRun → Bool)
      → ReadsLatest p q
      → (every p families ≡ true) ↔ OnFirst listed q
  every_family p q reads =
      let (_, described, _, present) = scenario_summary_lem m family limit in
      (
        λ h k r e.
            let at = keep-mem (in_family k) listed (first-mem _ e) in
            let own = kept_passes (in_family k) listed (first-mem _ e) in
            let (f, in_families, named) = exists-mem _ families (All-mem _ present at) in
            let same : f.scenario_family ≡ k =
              (text_eq_iff f.scenario_family r.scenario_family).0 named
              ∙ (text_eq_iff r.scenario_family k).0 own in
            let d = All-mem _ described in_families in
            let (r', e', read) = first-Latest _ f p q reads d.latest d.some_run in
            let is_r : r' ≡ r =
              let s : some r' ≡ some r =
                sym e' ∙ ap (λ x. first_of (keep (in_family x) listed)) same ∙ e in
              cc in
            ap q (sym is_r) ∙ sym read ∙ All-mem _ (every-All p families h) in_families,
        λ h. All-every p families (
            All-mono _ _ families
              (λ f d.
                let (r, e, read) = first-Latest _ f p q reads d.latest d.some_run in
                read ∙ h f.scenario_family r e)
              described),
      )

  -- A summary has families exactly when runs are listed.
  pub no_families : is_empty families ≡ is_empty listed
  no_families =
      let (_, described, _, present) = scenario_summary_lem m family limit in
      go listed families described present
    where
      go :
          (runs : List ScenarioRun) (fs : List FamilySummary)
          → All (λ f. Describes m (keep (in_family f.scenario_family) runs) f) fs
          → All (λ r. exists (λ f. text_eq f.scenario_family r.scenario_family) fs ≡ true) runs
          → is_empty fs ≡ is_empty runs
      go [] [] d p = refl
      go [] (f ∷ fs) d p = let h = d.0.some_run in cc
      go (r ∷ runs) [] d p = cc
      go (r ∷ runs) (f ∷ fs) d p = refl

  pub families_failures :
      sum_failures families
      ≡ total (λ r. length (keep is_failure (list_scenario_assertions m r.id))) listed
  unfolding scenario_summary
  families_failures = omega (arith, go (summarize m listed []), summarize-failures m listed [])
    where
      go :
          (bs : List FamilySummaryBuilder)
          → sum_failures (map finish_family bs) ≡ total (λ b. b.assertion_failures) bs
      go [] = refl
      go (b ∷ bs) = omega (arith, finish_failures b, go bs)
