-- ===== src/Scenarios/Summary/Described.antt =====
-- What the summary of `scenario_summary_for_store` (crates/pengu-mesh-core/src/lib.rs) says of the runs.
use pengu_mesh.Prelude.{
  ℕ, ◌+◌, ◌≡◌, refl, ap, ◌∙◌, inl, inr, Bool, true, false, Option, List, [], ◌∷◌, map, arith,
  Bool-cases, Text, text_eq, ◌||◌, length, keep, exists, is_empty, All, All-mono, Pairwise,
}
use pengu_mesh.Scenarios.{ScenarioRun, ScenarioStore}
use pengu_mesh.Scenarios.Listing.{list_scenario_runs}
use pengu_mesh.Tables.Query.{insert_by, order_by}
use pengu_mesh.Scenarios.Summary.{
  FamilySummaryBuilder, FamilySummary, new_builder, add_to_family, summarize, finish_family,
  is_failure, list_scenario_assertions, list_latency_samples, double_lt, clamp_limit,
  scenario_summary,
}
use pengu_mesh.Scenarios.Summary.Families.{
  Summarises, StatusOrder, Latest, counted, total, with_latest_kept,
}
use pengu_mesh.Scenarios.Summary.Partition.{in_family, has_family, summarize-Partition}

-- What a family's summary says of the runs of the family.
pub record Describes (m : ScenarioStore) (own : List ScenarioRun) (f : FamilySummary) : Type 0 where
  pub some_run : is_empty own ≡ false
  pub runs : f.runs ≡ length own
  pub order : StatusOrder f.statuses
  pub statuses : (s : Text) → counted s f.statuses ≡ length (keep (λ r. text_eq r.status s) own)
  pub assertions : f.assertion_total ≡ total (λ r. length (list_scenario_assertions m r.id)) own
  pub failures :
      f.assertion_failures
      ≡ total (λ r. length (keep is_failure (list_scenario_assertions m r.id))) own
  pub samples : f.latency_sample_count ≡ total (λ r. length (list_latency_samples m r.id)) own
  pub latest : Latest own f.latest_run_id f.latest_status f.latest_started_at f.latest_commit_sha

length-insert_by {ℓ} :
    {A : Type ℓ} (before : A → A → Bool) (x : A) (xs : List A)
    → length (insert_by before x xs) ≡ length xs + 1
unfolding insert_by
length-insert_by before x [] = refl
length-insert_by before x (y ∷ ys) = ground (arith, length-insert_by before x ys)

length-order_by {ℓ} :
    {A : Type ℓ} (before : A → A → Bool) (xs : List A) → length (order_by before xs) ≡ length xs
unfolding order_by
length-order_by before [] = refl
length-order_by before (x ∷ xs) =
    omega (arith, length-insert_by before x (order_by before xs), length-order_by before xs)

finish_family-Describes :
    (m : ScenarioStore) (own : List ScenarioRun) (b : FamilySummaryBuilder)
    → Summarises m own b
    → is_empty own ≡ false
    → Describes m own (finish_family b)
unfolding finish_family
finish_family-Describes m own b h n = record {
  some_run = n;
  runs = h.runs;
  order = h.order;
  statuses = h.statuses;
  assertions = h.assertions;
  failures = h.failures;
  samples = length-order_by double_lt b.latencies_ms ∙ h.samples;
  latest = h.latest;
}

finish_family_name :
    (b : FamilySummaryBuilder) → (finish_family b).scenario_family ≡ b.scenario_family
unfolding finish_family
finish_family_name b = refl

All-map-finish :
    (P : FamilySummary → Type 0) (bs : List FamilySummaryBuilder)
    → All (λ b. P (finish_family b)) bs
    → All P (map finish_family bs)
All-map-finish P [] h = tt
All-map-finish P (b ∷ bs) h = (h.0, All-map-finish P bs h.1)

finished-distinct :
    (bs : List FamilySummaryBuilder)
    → Pairwise (λ b c. text_eq b.scenario_family c.scenario_family ≡ false) bs
    → Pairwise (λ f g. text_eq f.scenario_family g.scenario_family ≡ false) (map finish_family bs)
unfolding finish_family
finished-distinct [] d = tt
finished-distinct (b ∷ bs) d = (All-map-finish _ bs d.0, finished-distinct bs d.1)

finished-exists :
    (bs : List FamilySummaryBuilder) (k : Text)
    → exists (λ f. text_eq f.scenario_family k) (map finish_family bs) ≡ exists (has_family k) bs
unfolding finish_family
finished-exists [] k = refl
finished-exists (b ∷ bs) k = ap (λ x. has_family k b || x) (finished-exists bs k)

-- The families of a summary are distinct, each has a run among those that `list_scenario_runs` gives
-- for the limit, put between 1 and 200, and each of these runs is of one of them. A family counts
-- its runs, also by their status, their assertions, those that have not passed, and their samples; its
-- latest run is the first of its runs in the list.
pub scenario_summary_lem :
    (m : ScenarioStore) (family : Option Text) (limit : ℕ)
    → let runs = list_scenario_runs m family (clamp_limit limit) in
      let p = scenario_summary m family limit in
      (p.total_runs ≡ length runs)
      × All (λ f. Describes m (keep (in_family f.scenario_family) runs) f) p.families
      × Pairwise (λ f g. text_eq f.scenario_family g.scenario_family ≡ false) p.families
      × All (λ r. exists (λ f. text_eq f.scenario_family r.scenario_family) p.families ≡ true) runs
unfolding scenario_summary finish_family
scenario_summary_lem m family limit =
    let runs = list_scenario_runs m family (clamp_limit limit) in
    let bs = summarize m runs [] in
    let p = summarize-Partition m [] runs [] record { covers = tt; distinct = tt; present = tt } in
    (
      refl,
      All-map-finish _ bs
          (All-mono _ _ bs (λ b (h, n). finish_family-Describes m _ b h n) p.covers),
      finished-distinct bs p.distinct,
      All-mono _ _ runs (λ r h. finished-exists bs r.scenario_family ∙ h) p.present,
    )

add_to_family-failures :
    (m : ScenarioStore) (r : ScenarioRun) (bs : List FamilySummaryBuilder)
    → total (λ b. b.assertion_failures) (add_to_family m r bs)
      ≡ length (keep is_failure (list_scenario_assertions m r.id))
        + total (λ b. b.assertion_failures) bs
unfolding add_to_family
add_to_family-failures m r [] =
    omega (arith, (with_latest_kept r (new_builder r.scenario_family)).3)
add_to_family-failures m r (b ∷ bs) =
    elim (Bool-cases (text_eq b.scenario_family r.scenario_family)) [
      | inl e ↦ rw e (omega (arith, (with_latest_kept r b).3))
      | inr e ↦ rw e (omega (arith, add_to_family-failures m r bs))
    ]

-- The failures of all families are those of all runs.
pub summarize-failures :
    (m : ScenarioStore) (runs : List ScenarioRun) (bs : List FamilySummaryBuilder)
    → total (λ b. b.assertion_failures) (summarize m runs bs)
      ≡ total (λ r. length (keep is_failure (list_scenario_assertions m r.id))) runs
        + total (λ b. b.assertion_failures) bs
unfolding summarize
summarize-failures m [] bs = omega arith
summarize-failures m (r ∷ runs) bs =
    omega (arith, summarize-failures m runs (add_to_family m r bs), add_to_family-failures m r bs)

pub finish_failures :
    (b : FamilySummaryBuilder) → (finish_family b).assertion_failures ≡ b.assertion_failures
unfolding finish_family
finish_failures b = refl
