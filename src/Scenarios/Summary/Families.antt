-- ===== src/Scenarios/Summary/Families.antt =====
-- What the summary of `scenario_summary_for_store` (crates/pengu-mesh-core/src/lib.rs) says of the runs.
use pengu_mesh.Prelude.{
  ℕ, ◌+◌, ◌≡◌, refl, sym, ap, subst, inl, inr, Bool, true, false, Option, none, some, List, [], ◌∷◌,
  ◌++◌, map, arith, Bool-cases, if◌then◌else◌, Text, text_eq, text_eq_iff, text_lt, text_lt_trans,
  text_lt_total, length, length-append, keep, All, All-mono, Pairwise,
}
use pengu_mesh.Scenarios.{ScenarioRun, ScenarioStore}
use pengu_mesh.Scenarios.Checks.{is_some}
use pengu_mesh.Scenarios.Summary.{
  FamilySummaryBuilder, new_builder, count_status, with_latest, is_failure, add_run,
  list_scenario_assertions, list_latency_samples,
}

abbrev pub total {ℓ} : {A : Type ℓ} → (A → ℕ) → List A → ℕ
total f [] = 0
total f (x ∷ xs) = f x + total f xs

total-snoc {ℓ} :
    {A : Type ℓ} (f : A → ℕ) (xs : List A) (a : A) → total f (xs ++ a ∷ []) ≡ total f xs + f a
total-snoc f [] a = omega arith
total-snoc f (x ∷ xs) a = omega (arith, total-snoc f xs a)

-- How often a status is counted.
abbrev pub counted : Text → List (Text × ℕ) → ℕ
counted s = total (λ p. if text_eq p.0 s then p.1 else 0)

counted-count_status :
    (s k : Text) (counts : List (Text × ℕ))
    → counted s (count_status k counts) ≡ (if text_eq k s then 1 else 0) + counted s counts
unfolding count_status
counted-count_status s k [] = ground arith
counted-count_status s k ((t, n) ∷ counts) = elim (Bool-cases (text_eq k t)) [
  | inl e ↦
      let same : k ≡ t = (text_eq_iff k t).0 e in rw (e, ap (λ x. text_eq x s) same) (ground arith)
  | inr e ↦ rw e (ground (arith, counted-count_status s k counts))
]

-- The entries are in the order of the statuses, one for each.
abbrev pub StatusOrder : List (Text × ℕ) → Type 0
StatusOrder = Pairwise (λ p q. text_lt p.0 q.0 ≡ true)

above-count_status :
    (a s : Text) (counts : List (Text × ℕ))
    → text_lt a s ≡ true
    → All (λ q. text_lt a q.0 ≡ true) counts
    → All (λ q. text_lt a q.0 ≡ true) (count_status s counts)
unfolding count_status
above-count_status a s [] l h = (l, tt)
above-count_status a s ((t, n) ∷ counts) l h = elim (Bool-cases (text_eq s t)) [
  | inl e ↦ rw e h
  | inr e ↦ elim (Bool-cases (text_lt s t)) [
    | inl f ↦ rw (e, f) (l, h)
    | inr f ↦ rw (e, f) (h.0, above-count_status a s counts l h.1)
  ]
]

count_status-StatusOrder :
    (s : Text) (counts : List (Text × ℕ)) → StatusOrder counts → StatusOrder (count_status s counts)
unfolding count_status
count_status-StatusOrder s [] h = (tt, tt)
count_status-StatusOrder s ((t, n) ∷ counts) h = elim (Bool-cases (text_eq s t)) [
  | inl e ↦ rw e h
  | inr e ↦ elim (Bool-cases (text_lt s t)) [
    | inl f ↦ rw (e, f) ((f, All-mono _ _ counts (λ q l. text_lt_trans s t q.0 f l) h.0), h)
    | inr f ↦
        let above : text_lt t s ≡ true = elim (Bool-cases (text_lt t s)) [
          | inl g ↦ g
          | inr g ↦ absurd (ground (arith, text_lt_total s t f g, text_eq_iff s t))
        ] in
        rw (e, f) (above-count_status t s counts above h.0, count_status-StatusOrder s counts h.1)
  ]
]

-- The run that a family's summary calls its latest: the first of its runs.
abbrev pub Latest :
    List ScenarioRun → Option Text → Option Text → Option Text → Option Text → Type 0
Latest [] id status started_at commit_sha = id ≡ none
Latest (r ∷ rs) id status started_at commit_sha =
    (id ≡ some r.id)
    × (status ≡ some r.status)
    × (started_at ≡ some r.started_at)
    × (commit_sha ≡ r.commit_sha)

pub record Summarises (m : ScenarioStore) (own : List ScenarioRun) (b : FamilySummaryBuilder)
    : Type 0 where
  pub runs : b.runs ≡ length own
  pub order : StatusOrder b.statuses
  pub statuses : (s : Text) → counted s b.statuses ≡ length (keep (λ r. text_eq r.status s) own)
  pub assertions : b.assertion_total ≡ total (λ r. length (list_scenario_assertions m r.id)) own
  pub failures :
      b.assertion_failures
      ≡ total (λ r. length (keep is_failure (list_scenario_assertions m r.id))) own
  pub samples : length b.latencies_ms ≡ total (λ r. length (list_latency_samples m r.id)) own
  pub latest : Latest own b.latest_run_id b.latest_status b.latest_started_at b.latest_commit_sha

pub new_builder-Summarises :
    (m : ScenarioStore) (family : Text) → Summarises m [] (new_builder family)
new_builder-Summarises m family = record {
  runs = refl;
  order = tt;
  statuses = λ s. refl;
  assertions = refl;
  failures = refl;
  samples = refl;
  latest = refl;
}

length-map {ℓ κ} :
    {A : Type ℓ} {B : Type κ} (f : A → B) (xs : List A) → length (map f xs) ≡ length xs
length-map f [] = refl
length-map f (x ∷ xs) = omega (arith, length-map f xs)

add_run-Latest :
    (own : List ScenarioRun) (r : ScenarioRun) (b : FamilySummaryBuilder)
    → Latest own b.latest_run_id b.latest_status b.latest_started_at b.latest_commit_sha
    → let c = with_latest r b in
      Latest (own ++ r ∷ []) c.latest_run_id c.latest_status c.latest_started_at c.latest_commit_sha
add_run-Latest [] r b h =
    let e : is_some b.latest_run_id ≡ false = ap is_some h in rw e (refl, refl, refl, refl)
add_run-Latest (x ∷ own) r b h = let e : is_some b.latest_run_id ≡ true = ap is_some h.0 in rw e h

pub with_latest_kept :
    (r : ScenarioRun) (b : FamilySummaryBuilder)
    → let c = with_latest r b in
      (c.runs ≡ b.runs)
      × (c.statuses ≡ b.statuses)
      × (c.assertion_total ≡ b.assertion_total)
      × (c.assertion_failures ≡ b.assertion_failures)
      × (c.latencies_ms ≡ b.latencies_ms)
with_latest_kept r b = elim (Bool-cases (is_some b.latest_run_id)) [
  | inl e ↦ rw e (refl, refl, refl, refl, refl)
  | inr e ↦ rw e (refl, refl, refl, refl, refl)
]

length-keep-snoc {ℓ} :
    {A : Type ℓ} (p : A → Bool) (xs : List A) (a : A)
    → length (keep p (xs ++ a ∷ [])) ≡ (if p a then 1 else 0) + length (keep p xs)
length-keep-snoc p [] a = ground arith
length-keep-snoc p (x ∷ xs) a = ground (arith, length-keep-snoc p xs a)

pub add_run-Summarises :
    (m : ScenarioStore) (own : List ScenarioRun) (r : ScenarioRun) (b : FamilySummaryBuilder)
    → Summarises m own b
    → Summarises m (own ++ r ∷ []) (add_run m r b)
add_run-Summarises m own r b h =
    let (runs, statuses, assertions, failures, samples) = with_latest_kept r b in
    record {
      runs = omega (arith, runs, h.runs, length-append own (r ∷ []));
      order = count_status-StatusOrder r.status _ (subst StatusOrder (sym statuses) h.order);
      statuses = λ s. omega (
        arith,
        counted-count_status s r.status (with_latest r b).statuses,
        ap (counted s) statuses,
        h.statuses s,
        length-keep-snoc (λ r. text_eq r.status s) own r,
      );
      assertions = omega (
        arith,
        assertions,
        h.assertions,
        total-snoc (λ r. length (list_scenario_assertions m r.id)) own r,
      );
      failures = omega (
        arith,
        failures,
        h.failures,
        total-snoc (λ r. length (keep is_failure (list_scenario_assertions m r.id))) own r,
      );
      samples = omega (
        arith,
        ap length samples,
        h.samples,
        length-append (with_latest r b).latencies_ms
            (map (λ s. s.sample_ms) (list_latency_samples m r.id)),
        length-map (λ s. s.sample_ms) (list_latency_samples m r.id),
        total-snoc (λ r. length (list_latency_samples m r.id)) own r,
      );
      latest = add_run-Latest own r b h.latest;
    }
