-- ===== src/Scenarios/Changes.antt =====
-- What the statements of crates/pengu-mesh-state/src/lib.rs leave of the evidence of the finished runs.
use pengu_mesh.Prelude.{
  ◌≡◌, refl, sym, ap, ◌∙◌, false, not, ◌&&◌, ◌||◌, some, [], ◌∷◌, ◌++◌, Text, text_eq, keep,
  All-mono, Ensures, Ensures-unless,
}
use pengu_mesh.Tables.{key_taken}
use pengu_mesh.Tables.Laws.{find-insert_some, find-update_ne, found_only}
use pengu_mesh.Scenarios.{
  ScenarioRun, ScenarioStep, ScenarioStore, ScenarioAssertion, LatencySample, constraint_failed,
  run_key, step_key, assertion_key, sample_key, has_run, has_step, of_run, steps_of,
  insert_scenario_run, insert_scenario_step, get_scenario_run, get_scenario_step,
  insert_scenario_assertion, insert_latency_sample, update_scenario_run, update_scenario_step,
}
use pengu_mesh.Scenarios.Checks.{is_some}
use pengu_mesh.Scenarios.Valid.{WellFormed}
use pengu_mesh.Scenarios.Frozen.{
  evidence, Finished, Active, Active-Finished, keep-snoc_other, steps_of-update_ne,
  Finished-steps_of, Kept,
}

same_evidence :
    (m m' : ScenarioStore) (id : Text)
    → get_scenario_run m' id ≡ get_scenario_run m id
    → steps_of id m'.steps ≡ steps_of id m.steps
    → keep (λ a. text_eq a.run_id id) m'.assertions ≡ keep (λ a. text_eq a.run_id id) m.assertions
    → keep (λ s. text_eq s.run_id id) m'.samples ≡ keep (λ s. text_eq s.run_id id) m.samples
    → evidence m' id ≡ evidence m id
same_evidence m m' id a b c d = rw (a, b, c, d) refl

-- The evidence of the finished runs stays.
abbrev pub Unseen : ScenarioStore → ScenarioStore → Type 0
Unseen m m' = (id : Text) → Finished m id → evidence m' id ≡ evidence m id

pub insert_scenario_step-Unseen :
    (m : ScenarioStore) (s : ScenarioStep)
    → Active m s.run_id
    → Ensures (Unseen m) (insert_scenario_step m s)
unfolding insert_scenario_step get_scenario_run
insert_scenario_step-Unseen m s a =
    Ensures-unless _ (key_taken step_key m.steps s.id || not (has_run m s.run_id)) constraint_failed
      _
      (λ _ id f.
        same_evidence m (record m { steps = m.steps ++ s ∷ [] }) id refl
          (keep-snoc_other (of_run id) m.steps s (Active-Finished m s.run_id id a f)) refl refl)

pub insert_scenario_assertion-Kept :
    (m : ScenarioStore) (x : ScenarioAssertion)
    → WellFormed m
    → Active m x.run_id
    → Ensures (Kept m) (insert_scenario_assertion m x)
unfolding insert_scenario_assertion get_scenario_run
insert_scenario_assertion-Kept m x v a =
    Ensures-unless _
      (key_taken assertion_key m.assertions x.id
        || not (has_run m x.run_id && has_step m x.step_id))
      constraint_failed _
      (λ _. (
        record {
          run_ids = v.run_ids;
          step_ids = v.step_ids;
          id_chars = v.id_chars;
          owned = v.owned;
          numbered = v.numbered;
        },
        λ id f.
            same_evidence m (record m { assertions = m.assertions ++ x ∷ [] }) id refl refl
              (keep-snoc_other (λ y. text_eq y.run_id id) m.assertions x
                (Active-Finished m x.run_id id a f))
              refl,
      ))

pub insert_latency_sample-Kept :
    (m : ScenarioStore) (x : LatencySample)
    → WellFormed m
    → Active m x.run_id
    → Ensures (Kept m) (insert_latency_sample m x)
unfolding insert_latency_sample get_scenario_run
insert_latency_sample-Kept m x v a =
    Ensures-unless _
      (key_taken sample_key m.samples x.id || not (has_run m x.run_id && has_step m x.step_id))
      constraint_failed _
      (λ _. (
        record {
          run_ids = v.run_ids;
          step_ids = v.step_ids;
          id_chars = v.id_chars;
          owned = v.owned;
          numbered = v.numbered;
        },
        λ id f.
            same_evidence m (record m { samples = m.samples ++ x ∷ [] }) id refl refl refl
              (keep-snoc_other (λ y. text_eq y.run_id id) m.samples x
                (Active-Finished m x.run_id id a f)),
      ))

pub insert_scenario_run-Unseen :
    (m : ScenarioStore) (r : ScenarioRun) → Ensures (Unseen m) (insert_scenario_run m r)
unfolding insert_scenario_run get_scenario_run
insert_scenario_run-Unseen m r =
    Ensures-unless _ (key_taken run_key m.runs r.id) constraint_failed _ (λ _ id (s, e, b).
      same_evidence m (record m { runs = m.runs ++ r ∷ [] }) id
        (find-insert_some run_key m.runs r id {r = s} e ∙ sym e) refl refl refl)

pub update_scenario_step-Unseen :
    (m : ScenarioStore) (s t : ScenarioStep)
    → WellFormed m
    → get_scenario_step m t.id ≡ some s
    → t.run_id ≡ s.run_id
    → is_some s.finished_at ≡ false
    → Unseen m (update_scenario_step m t)
unfolding update_scenario_step get_scenario_step get_scenario_run
update_scenario_step-Unseen m s t v e r open_step id f =
    let ne : of_run id s ≡ false = Finished-steps_of m s t.id id v f e open_step in
    same_evidence m (update_scenario_step m t) id refl
      (steps_of-update_ne m.steps t id
        (All-mono _ _ m.steps (λ x h g. ap (of_run id) (h g) ∙ ne)
          (found_only step_key m.steps t.id {r = s} v.step_ids e))
        (ap (λ k. text_eq k id) r ∙ ne))
      refl refl

pub update_scenario_run-Unseen :
    (m : ScenarioStore) (t : ScenarioRun) → Active m t.id → Unseen m (update_scenario_run m t)
unfolding update_scenario_run get_scenario_run
update_scenario_run-Unseen m t a id f =
    same_evidence m (update_scenario_run m t) id
      (find-update_ne run_key m.runs t id (Active-Finished m t.id id a f)) refl refl refl
