-- ===== src/Scenarios/Gate/Decision.antt =====
-- When `scenario_gate` (crates/pengu-mesh-core/src/lib.rs) passes.
use pengu_mesh.Prelude.{
  ℕ, ◌≤◌, ◌≡◌, refl, sym, ap, subst, ◌∙◌, ◌↔◌, leb, Bool, true, false, not, ◌&&◌, Option, none,
  some, List, [], arith, Text, text_eq, length, keep, exists, every, is_empty, All, All-mono,
  lookup,
}
use pengu_mesh.Scenarios.{ScenarioRun, ScenarioStore}
use pengu_mesh.Scenarios.Listing.{list_scenario_runs}
use pengu_mesh.Scenarios.Listing.Newest.{ListsLatest, list_scenario_runs-ListsLatest}
use pengu_mesh.Scenarios.Summary.{
  is_failure, list_scenario_assertions, list_latency_samples, clamp_limit, scenario_summary,
}
use pengu_mesh.Scenarios.Summary.Families.{total}
use pengu_mesh.Scenarios.Gate.{
  ScenarioGatePolicy, ScenarioGatePayload, threshold_checks, sum_failures, allowed, status_allowed,
  age_within, is_fresh, freshness_checks, with_default_status, gate_checks, gate_payload,
  samples_by_metric, gate_of, scenario_gate,
}
use pengu_mesh.Scenarios.Gate.Samples.{of_metric, metric_samples, concat_map, samples_by_metric_lem}
use pengu_mesh.Scenarios.Gate.Passing.{
  and_iff, every-append, MeetsThreshold, threshold_checks_lem, ReadsLatest, OnFirst, listed,
  every_family, no_families, families_failures,
}
use pengu_mesh.Scenarios.Summary.Described.{scenario_summary_lem}
use pengu_mesh.Threshold.Budgets.{WithinAll}
use pengu_mesh.Threshold.{PerformanceThreshold, ThresholdResult}

module _ (rank : ℕ → ℕ → ℕ) (is_whitespace : ℕ → Bool) (age : Text → Option ℕ) where
  -- What the evidence has to be for a policy, on a list of runs with the latest first: the latest run
  -- of a family is its first one in the list.
  pub record Meets (m : ScenarioStore) (runs : List ScenarioRun) (p : ScenarioGatePolicy)
      : Type 0 where
    pub enough_runs : p.min_runs ≤ length runs
    pub some_run : is_empty runs ≡ false
    pub statuses :
        OnFirst runs
          (λ r. exists (λ s. text_eq s r.status) (allowed is_whitespace p.allowed_statuses))
    pub failures :
        total (λ r. length (keep is_failure (list_scenario_assertions m r.id))) runs
        ≤ p.max_assertion_failures
    pub fresh :
        (minutes : ℕ)
        → p.max_latest_age_minutes ≡ some minutes
        → OnFirst runs (λ r. age_within minutes (age r.started_at))
    pub budgets :
        All
          (MeetsThreshold rank p.min_samples_per_metric
            (λ k. metric_samples k (concat_map (λ r. list_latency_samples m r.id) runs)))
          p.thresholds

  status-ReadsLatest :
      (statuses : List Text)
      → ReadsLatest (status_allowed statuses) (λ r. exists (λ s. text_eq s r.status) statuses)
  status-ReadsLatest statuses f r rs (_, e, _, _) = rw e refl

  fresh-ReadsLatest :
      (minutes : ℕ)
      → ReadsLatest (is_fresh age minutes) (λ r. age_within minutes (age r.started_at))
  fresh-ReadsLatest minutes f r rs (_, _, e, _) = rw e refl

  fresh_check_lem :
      (m : ScenarioStore) (family : Option Text) (limit : ℕ) (o : Option ℕ)
      → is_empty (listed m family limit) ≡ false
      → (every (λ c. c.passed) (freshness_checks age o (scenario_summary m family limit).families)
          ≡ true)
        ↔ ((minutes : ℕ)
            → o ≡ some minutes
            → OnFirst (listed m family limit) (λ r. age_within minutes (age r.started_at)))
  fresh_check_lem m family limit none n = (λ h k e. cc, λ h. refl)
  fresh_check_lem m family limit (some k) n =
      let iff = every_family m family limit (is_fresh age k) _ (fresh-ReadsLatest k) in
      let some_family : is_empty (scenario_summary m family limit).families ≡ false =
        no_families m family limit ∙ n in
      rw some_family (
        λ h j e.
            let same : k ≡ j = let s : some k ≡ some j = e in cc in
            subst (λ x. OnFirst (listed m family limit) (λ r. age_within x (age r.started_at))) same
              (iff.0 ((and_iff _ true).0 h).0),
        λ h. (and_iff _ true).1 (iff.1 (h k refl), refl),
      )

  metric_samples_lem :
      (m : ScenarioStore) (runs : List ScenarioRun) (k : Text)
      → of_metric k (samples_by_metric m runs [])
        ≡ metric_samples k (concat_map (λ r. list_latency_samples m r.id) runs)
  unfolding lookup
  metric_samples_lem m runs k = samples_by_metric_lem m k runs []

  budgets_lem :
      (m : ScenarioStore) (runs : List ScenarioRun) (n : ℕ) (ts : List PerformanceThreshold)
      → All (MeetsThreshold rank n (λ k. of_metric k (samples_by_metric m runs []))) ts
        ↔ All
            (MeetsThreshold rank n
              (λ k. metric_samples k (concat_map (λ r. list_latency_samples m r.id) runs)))
            ts
  budgets_lem m runs n ts = (
    All-mono _ _ ts (λ t h.
        subst (λ x. (n ≤ length x) × WithinAll rank t x) (metric_samples_lem m runs t.metric) h),
    All-mono _ _ ts (λ t h.
        subst (λ x. (n ≤ length x) × WithinAll rank t x) (sym (metric_samples_lem m runs t.metric))
          h),
  )

  gate_checks_lem :
      (m : ScenarioStore) (family : Option Text) (limit : ℕ) (p : ScenarioGatePolicy)
      (rs : List ThresholdResult)
      → let runs = listed m family limit in
        (every (λ c. c.passed) (threshold_checks p.min_samples_per_metric rs) ≡ true)
          ↔ All
              (MeetsThreshold rank p.min_samples_per_metric
                (λ k. of_metric k (samples_by_metric m runs [])))
              p.thresholds
        → (every
              (λ c. c.passed)
              (gate_checks is_whitespace age p (scenario_summary m family limit) rs)
            ≡ true)
          ↔ Meets m runs p
  gate_checks_lem m family limit p rs within =
      let s = scenario_summary m family limit in
      let runs = listed m family limit in
      let total_runs : s.total_runs ≡ length runs = (scenario_summary_lem m family limit).0 in
      let none_listed = no_families m family limit in
      let failing = families_failures m family limit in
      let statuses =
        every_family m family limit (status_allowed (allowed is_whitespace p.allowed_statuses)) _
          (status-ReadsLatest (allowed is_whitespace p.allowed_statuses)) in
      let budgets = budgets_lem m runs p.min_samples_per_metric p.thresholds in
      let fresh = freshness_checks age p.max_latest_age_minutes s.families in
      let last = threshold_checks p.min_samples_per_metric rs in
      let split = every-append (λ c. c.passed) fresh last in
      (
        λ h.
            let (a, h1) = (and_iff (leb p.min_runs s.total_runs) _).0 h in
            let (b, h2) =
              (and_iff
                  (not (is_empty s.families)
                    && every (status_allowed (allowed is_whitespace p.allowed_statuses)) s.families)
                  _).0
                h1 in
            let (c, h3) =
              (and_iff (leb (sum_failures s.families) p.max_assertion_failures) _).0 h2 in
            let (d, e) =
              (and_iff (every (λ c. c.passed) fresh) (every (λ c. c.passed) last)).0
                (sym split ∙ h3) in
            let (b0, b1) = (and_iff (not (is_empty s.families)) _).0 b in
            let n : is_empty runs ≡ false = ground (arith, none_listed, b0) in
            record {
              enough_runs = ground (arith, total_runs, a);
              some_run = n;
              statuses = statuses.0 b1;
              failures = ground (arith, failing, c);
              fresh = (fresh_check_lem m family limit p.max_latest_age_minutes n).0 d;
              budgets = budgets.0 (within.0 e);
            },
        λ h. (and_iff (leb p.min_runs s.total_runs) _).1 (
          ground (arith, total_runs, h.enough_runs),
          (and_iff _ _).1 (
            (and_iff (not (is_empty s.families)) _).1
                (ground (arith, none_listed, h.some_run), statuses.1 h.statuses),
            (and_iff _ _).1 (
              ground (arith, failing, h.failures),
              split
                  ∙ (and_iff _ _).1 (
                    (fresh_check_lem m family limit p.max_latest_age_minutes h.some_run).1 h.fresh,
                    within.1 (budgets.1 h.budgets),
                  ),
            ),
          ),
        ),
      )

  -- A gate does not panic, whatever the store and the policy. The runs that it reads are the latest ones
  -- in the store, of the family that is asked for or of all families, up to the limit (put between 1
  -- and 200): they are listed with the latest first, and no run left out started later than one of
  -- them. The gate passes exactly when, among these runs, there are enough and at least one, the
  -- latest run of each family has an allowed status and, where the policy limits it, an age that
  -- can be read and is within the limit, not too many assertions have not passed, and each
  -- threshold has enough samples, all budgets of which hold. Without allowed statuses, `passed` is allowed.
  pub scenario_gate_lem :
      (m : ScenarioStore) (family : Option Text) (limit : ℕ) (policy : ScenarioGatePolicy)
      → (p : ScenarioGatePayload) × (scenario_gate is_whitespace age rank m family limit policy
          ≡ some p)
        × ListsLatest m family (clamp_limit limit) (list_scenario_runs m family (clamp_limit limit))
        × ((p.passed ≡ true)
            ↔ Meets m
                (list_scenario_runs m family (clamp_limit limit))
                (with_default_status policy))
  unfolding scenario_gate
  scenario_gate_lem m family limit policy =
      let n = clamp_limit limit in
      let p = with_default_status policy in
      let runs = list_scenario_runs m family n in
      let once : listed m family n ≡ runs =
        let e : clamp_limit n ≡ n = omega arith in ap (list_scenario_runs m family) e in
      let (rs, e, iff) =
        threshold_checks_lem rank p.min_samples_per_metric (samples_by_metric m runs [])
          p.thresholds in
      (
        gate_payload is_whitespace age family n p (scenario_summary m family n) rs,
        ap (gate_of is_whitespace age family n p (scenario_summary m family n)) e,
        list_scenario_runs-ListsLatest m family n,
        subst
            (λ x.
              (every (λ c. c.passed)
                  (gate_checks is_whitespace age p (scenario_summary m family n) rs)
                ≡ true)
              ↔ Meets m x p)
            once
            (gate_checks_lem m family n p rs (
              subst
                (λ x.
                  (every (λ c. c.passed) (threshold_checks p.min_samples_per_metric rs) ≡ true)
                  ↔ All
                      (MeetsThreshold rank p.min_samples_per_metric
                        (λ k. of_metric k (samples_by_metric m x [])))
                      p.thresholds)
                (sym once) iff)),
      )
