-- ===== src/Scenarios/Gate/Samples.antt =====
-- The samples that `scenario_gate` (crates/pengu-mesh-core/src/lib.rs) gathers for a metric.
use pengu_mesh.Prelude.{
  ℕ, ◌≡◌, refl, sym, ap, ◌∙◌, inl, inr, Bool, true, false, List, [], ◌∷◌, ◌++◌, map, arith,
  Bool-cases, if◌then◌else◌, Text, text_eq, text_eq_iff, keep, lookup, append_assoc, append-nil,
}
use pengu_mesh.Scenarios.{ScenarioRun, LatencySample, ScenarioStore}
use pengu_mesh.Scenarios.Summary.{list_latency_samples}
use pengu_mesh.Scenarios.Gate.{
  latency_sample_budget_ms, push_sample, push_samples, samples_by_metric,
}
use pengu_mesh.Threshold.{samples_of}

abbrev pub concat_map {ℓ κ} : {A : Type ℓ} {B : Type κ} → (A → List B) → List A → List B
concat_map f [] = []
concat_map f (x ∷ xs) = f x ++ concat_map f xs

-- The samples of a metric, in milliseconds.
abbrev pub metric_samples : Text → List LatencySample → List ℕ
metric_samples metric ss =
    map (λ s. latency_sample_budget_ms s.sample_ms) (keep (λ s. text_eq s.metric_name metric) ss)

abbrev pub of_metric : Text → List (Text × List ℕ) → List ℕ
of_metric metric samples = samples_of (lookup metric samples)

of_metric-push_sample :
    (metric k : Text) (v : ℕ) (samples : List (Text × List ℕ))
    → of_metric metric (push_sample k v samples)
      ≡ of_metric metric samples ++ (if text_eq k metric then v ∷ [] else [])
unfolding push_sample lookup
of_metric-push_sample metric k v [] = elim (Bool-cases (text_eq k metric)) [
  | inl e ↦ rw e refl
  | inr e ↦ rw e refl
]
of_metric-push_sample metric k v ((j, vs) ∷ samples) = elim (Bool-cases (text_eq j k)) [
  | inl e ↦
      let same : text_eq j metric ≡ text_eq k metric =
        ap (λ x. text_eq x metric) ((text_eq_iff j k).0 e) in
      elim (Bool-cases (text_eq k metric)) [
        | inl f ↦ rw (e, same ∙ f, f) refl
        | inr f ↦ rw (e, same ∙ f, f) (sym (append-nil _))
      ]
  | inr e ↦ elim (Bool-cases (text_eq j metric)) [
    | inl f ↦
        let other : text_eq k metric ≡ false =
          ground (arith, text_eq_iff j metric, text_eq_iff k metric, text_eq_iff j k, e) in
        rw (e, f, other) (sym (append-nil vs))
    | inr f ↦ rw (e, f) (of_metric-push_sample metric k v samples)
  ]
]

push_samples_lem :
    (metric : Text) (ss : List LatencySample) (samples : List (Text × List ℕ))
    → of_metric metric (push_samples ss samples)
      ≡ of_metric metric samples ++ metric_samples metric ss
unfolding push_samples
push_samples_lem metric [] samples = sym (append-nil _)
push_samples_lem metric (s ∷ ss) samples =
    push_samples_lem metric ss _
    ∙ ap (λ x. x ++ metric_samples metric ss)
        (of_metric-push_sample metric s.metric_name (latency_sample_budget_ms s.sample_ms) samples)
    ∙ append_assoc (of_metric metric samples) _ (metric_samples metric ss)
    ∙ ap (λ x. of_metric metric samples ++ x) (go (text_eq s.metric_name metric))
  where
    go :
        (b : Bool)
        → (if b then latency_sample_budget_ms s.sample_ms ∷ [] else []) ++ metric_samples metric ss
          ≡ map
              (λ s. latency_sample_budget_ms s.sample_ms)
              (if b
                then s ∷ keep (λ s. text_eq s.metric_name metric) ss
                else keep (λ s. text_eq s.metric_name metric) ss)
    go true = refl
    go false = refl

keep-append {ℓ} :
    {A : Type ℓ} (p : A → Bool) (xs ys : List A) → keep p (xs ++ ys) ≡ keep p xs ++ keep p ys
keep-append p [] ys = refl
keep-append p (x ∷ xs) ys = ground (arith, keep-append p xs ys)

map-append {ℓ κ} :
    {A : Type ℓ} {B : Type κ} (f : A → B) (xs ys : List A) → map f (xs ++ ys) ≡ map f xs ++ map f ys
map-append f [] ys = refl
map-append f (x ∷ xs) ys = ap (◌∷◌ (f x)) (map-append f xs ys)

metric_samples-append :
    (metric : Text) (xs ys : List LatencySample)
    → metric_samples metric (xs ++ ys) ≡ metric_samples metric xs ++ metric_samples metric ys
metric_samples-append metric xs ys =
    ap (map (λ s. latency_sample_budget_ms s.sample_ms))
      (keep-append (λ s. text_eq s.metric_name metric) xs ys)
    ∙ map-append (λ s. latency_sample_budget_ms s.sample_ms)
        (keep (λ s. text_eq s.metric_name metric) xs) (keep (λ s. text_eq s.metric_name metric) ys)

-- The samples of a metric are those of the runs, run by run.
pub samples_by_metric_lem :
    (m : ScenarioStore) (metric : Text) (runs : List ScenarioRun) (samples : List (Text × List ℕ))
    → of_metric metric (samples_by_metric m runs samples)
      ≡ of_metric metric samples
        ++ metric_samples metric (concat_map (λ r. list_latency_samples m r.id) runs)
unfolding samples_by_metric
samples_by_metric_lem m metric [] samples = sym (append-nil _)
samples_by_metric_lem m metric (r ∷ runs) samples =
    let own = list_latency_samples m r.id in
    let rest = concat_map (λ r. list_latency_samples m r.id) runs in
    samples_by_metric_lem m metric runs (push_samples own samples)
    ∙ ap (λ x. x ++ metric_samples metric rest) (push_samples_lem metric own samples)
    ∙ append_assoc (of_metric metric samples) (metric_samples metric own)
        (metric_samples metric rest)
    ∙ ap (λ x. of_metric metric samples ++ x) (sym (metric_samples-append metric own rest))
