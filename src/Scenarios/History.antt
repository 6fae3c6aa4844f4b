-- ===== src/Scenarios/History.antt =====
-- What sequences of the calls of crates/pengu-mesh-core/src/scenario_recorder.rs keep.
use pengu_mesh.Prelude.{
  ℕ, ◌≡◌, refl, ◌∙◌, Bool, false, List, [], ◌∷◌, map, Text, length, text_eq, Result, ok, err,
  Ensures, Ensures-unless, Ensures-both, All, ap, exists, not, ◌||◌,
}
use pengu_mesh.StableId.{stable_id-All, IsIdChar, scenario_run}
use pengu_mesh.Scenarios.{
  ScenarioRun, ScenarioStore, EnvironmentFingerprint, ScenarioError, steps_of, insert_scenario_run,
  insert_environment_fingerprint, get_scenario_run, fingerprint_key, has_run, constraint_failed,
}
use pengu_mesh.Tables.{key_taken}
use pengu_mesh.Scenarios.Starting.{
  Environment, capture_environment_fingerprint, new_recorder, run_fields, new_run, store_run,
  checked_run, store_fingerprint,
}
use pengu_mesh.Scenarios.Listing.{list_scenario_steps}
use pengu_mesh.Scenarios.Calls.{
  Call, start_run, start_step, assertion, latency, finish_step, finish_run, perform, perform_all,
}
use pengu_mesh.Scenarios.Valid.{numbers, WellFormed, list_scenario_steps_lem}
use pengu_mesh.Scenarios.Keeps.{insert_scenario_run-WellFormed}
use pengu_mesh.Scenarios.Frozen.{evidence, Finished, Kept, Kept-refl, Kept-trans}
use pengu_mesh.Scenarios.Changes.{Unseen, insert_scenario_run-Unseen}
use pengu_mesh.Scenarios.Kept.{
  Stores-stored, record_step-Kept, create_assertion_record-Kept, create_latency_record-Kept,
  finish_step_record-Kept, finish_run_record-Kept,
}

insert_environment_fingerprint-Kept :
    (m : ScenarioStore) (f : EnvironmentFingerprint)
    → WellFormed m
    → Ensures (Kept m) (insert_environment_fingerprint m f)
unfolding insert_environment_fingerprint get_scenario_run
insert_environment_fingerprint-Kept m f v =
    Ensures-unless _
      (key_taken fingerprint_key m.fingerprints f.id
        || (exists (λ g. text_eq g.run_id f.run_id) m.fingerprints || not (has_run m f.run_id)))
      constraint_failed _
      (λ _. (
        record {
          run_ids = v.run_ids;
          step_ids = v.step_ids;
          id_chars = v.id_chars;
          owned = v.owned;
          numbered = v.numbered;
        },
        λ id f. refl,
      ))

module _ (is_whitespace : ℕ → Bool) where
  store_fingerprint-Kept :
      (m : ScenarioStore) (r : ScenarioRun) (x : Result ScenarioStore ScenarioError)
      → WellFormed m
      → Ensures (Kept m) x
      → Kept m (store_fingerprint is_whitespace r m x).1
  unfolding Ensures
  store_fingerprint-Kept m r (ok m') v h = h
  store_fingerprint-Kept m r (err e) v h = Kept-refl m v

  store_run-Kept :
      (m : ScenarioStore) (r : ScenarioRun) (f : EnvironmentFingerprint)
      (x : Result ScenarioStore ScenarioError)
      → WellFormed m
      → Ensures (Kept m) x
      → Kept m (store_run is_whitespace r f m x).1
  unfolding Ensures
  store_run-Kept m r f (ok m') v h = Kept-trans m m' _ h (
      store_fingerprint-Kept m' r (insert_environment_fingerprint m' f) h.0
        (insert_environment_fingerprint-Kept m' f h.0))
  store_run-Kept m r f (err e) v h = Kept-refl m v

  checked_run-Kept :
      (m : ScenarioStore) (r : ScenarioRun) (f : EnvironmentFingerprint)
      (x : Result (Unit {0}) ScenarioError)
      → WellFormed m
      → All IsIdChar r.id
      → Kept m (checked_run is_whitespace r f m x).1
  checked_run-Kept m r f (ok _) v h = store_run-Kept m r f (insert_scenario_run m r) v (
      Ensures-both WellFormed (Unseen m) (insert_scenario_run m r)
        (insert_scenario_run-WellFormed m r v h) (insert_scenario_run-Unseen m r))
  checked_run-Kept m r f (err e) v h = Kept-refl m v

  new_recorder-Kept :
      (m : ScenarioStore) (e : Environment) (name family version surface suffix suffix' now : Text)
      → WellFormed m
      → Kept m (new_recorder is_whitespace m e name family version surface suffix suffix' now).1
  unfolding new_recorder
  new_recorder-Kept m e name family version surface suffix suffix' now v =
      let r = new_run is_whitespace e name family version surface suffix now in
      checked_run-Kept m r (capture_environment_fingerprint e r.id suffix')
        (run_fields is_whitespace name family version surface) v (stable_id-All scenario_run suffix)

module _ (is_whitespace : ℕ → Bool)
    (id_chars : (c : ℕ) → IsIdChar c → is_whitespace c ≡ false) where
  perform-Kept : (m : ScenarioStore) (c : Call) → WellFormed m → Kept m (perform is_whitespace m c)
  unfolding perform
  perform-Kept m (start_run e name family version surface suffix suffix' now) v =
      new_recorder-Kept is_whitespace m e name family version surface suffix suffix' now v
  perform-Kept m (start_step run_id name kind command_line suffix now) v =
      Stores-stored m _ v
        (record_step-Kept is_whitespace id_chars m run_id name kind command_line suffix now v)
  perform-Kept m
        (assertion run_id step_id name expected actual status failure_category notes suffix) v =
      Stores-stored m _ v (
        create_assertion_record-Kept is_whitespace id_chars m run_id step_id name expected actual
          status failure_category notes suffix v)
  perform-Kept m (latency run_id step_id metric sample_ms capture_method suffix) v =
      Stores-stored m _ v (
        create_latency_record-Kept is_whitespace id_chars m run_id step_id metric sample_ms
          capture_method suffix v)
  perform-Kept m (finish_step step_id status error_code now) v =
      Stores-stored m _ v
        (finish_step_record-Kept is_whitespace id_chars m step_id status error_code now v)
  perform-Kept m (finish_run run_id status summary_path now) v =
      Stores-stored m _ v
        (finish_run_record-Kept is_whitespace id_chars m run_id status summary_path now v)

  perform_all-Kept :
      (m : ScenarioStore) (cs : List Call) → WellFormed m → Kept m (perform_all is_whitespace m cs)
  unfolding perform_all
  perform_all-Kept m [] v = Kept-refl m v
  perform_all-Kept m (c ∷ cs) v =
      let k = perform-Kept m c v in
      Kept-trans m (perform is_whitespace m c) _ k
        (perform_all-Kept (perform is_whitespace m c) cs k.0)

  -- For every classification of white space that has none of the characters of identifiers, a
  -- well-formed store stays well formed through all calls of the recorder, those that fail included:
  -- no identifier of a run or a step is in use twice, each step's run is in the table and is not
  -- finished before the step, and the steps of each run are numbered 1, 2, ... in order of creation.
  pub perform_all-WellFormed :
      (m : ScenarioStore) (cs : List Call)
      → WellFormed m
      → WellFormed (perform_all is_whitespace m cs)
  perform_all-WellFormed m cs v = (perform_all-Kept m cs v).0

  -- For every classification of white space that has none of the characters of identifiers: once a run of a well-formed store has a time of finish,
  -- no sequence of calls changes its record, its steps, its assertions or its samples.
  pub evidence-perform_all :
      (m : ScenarioStore) (cs : List Call) (id : Text)
      → WellFormed m
      → Finished m id
      → evidence (perform_all is_whitespace m cs) id ≡ evidence m id
  evidence-perform_all m cs id v f = (perform_all-Kept m cs v).1 id f

  -- For every classification of white space that has none of the characters of identifiers: after all
  -- calls on a well-formed store,
  -- `list_scenario_steps` lists a run's steps as they were created, with the ordinals 1, 2, ... .
  pub list_scenario_steps-perform_all :
      (m : ScenarioStore) (cs : List Call) (id : Text)
      → WellFormed m
      → (list_scenario_steps (perform_all is_whitespace m cs) id
          ≡ steps_of id (perform_all is_whitespace m cs).steps)
        × (map (λ s. s.ordinal) (list_scenario_steps (perform_all is_whitespace m cs) id)
            ≡ numbers 1 (length (steps_of id (perform_all is_whitespace m cs).steps)))
  list_scenario_steps-perform_all m cs id v =
      let m' = perform_all is_whitespace m cs in
      let v' = perform_all-WellFormed m cs v in
      let e = list_scenario_steps_lem m' id v' in (e, ap (map (λ s. s.ordinal)) e ∙ v'.numbered id)
