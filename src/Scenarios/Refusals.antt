-- ===== src/Scenarios/Refusals.antt =====
-- What the operations of crates/pengu-mesh-core/src/scenario_recorder.rs refuse.
use pengu_mesh.Prelude.{
  keep-All_inverse, ℕ, ◌≡◌, refl, sym, ap, ◌∙◌, Bool, true, false, Option, Text, text_eq_refl,
  every, every-All, All-mem, Memᴰ, true-false, Result, ok, err, Ensures, Ensures-bind,
  Ensures-found, ensure, ◌>>=◌, ◌>>◌, found,
}
use pengu_mesh.Scenarios.{
  ScenarioRun, ScenarioStep, ScenarioStore, Double, ScenarioError, active_steps, negative_sample,
  finished_run, unknown_run, of_run, get_scenario_run,
}
use pengu_mesh.Scenarios.Recorder.{record_step, create_assertion_record, create_latency_record}
use pengu_mesh.Scenarios.Checks.{
  is_some, is_running, is_nonnegative, ensure_run_active, ensure_present,
}
use pengu_mesh.Scenarios.Finishing.{finish_run_record}
use pengu_mesh.Scenarios.Listing.{list_scenario_steps}
use pengu_mesh.Scenarios.Valid.{WellFormed, list_scenario_steps_lem}
use pengu_mesh.Scenarios.Frozen.{Finished, Active, Active-Finished}
use pengu_mesh.Scenarios.Kept.{ensure_run_active-Active, ok_ensure}

abbrev pub is_err {ℓ κ} : {A : Type ℓ} {E : Type κ} → Result A E → Bool
is_err (ok a) = false
is_err (err e) = true

Ensures-err {ℓ κ} :
    {A : Type ℓ} {E : Type κ} (r : Result A E) → Ensures (λ _. ⊥) r → is_err r ≡ true
unfolding Ensures
Ensures-err (ok a) h = absurd h
Ensures-err (err e) h = refl

not-Active : (m : ScenarioStore) (id : Text) → Finished m id → Active m id → ⊥
not-Active m id f a = true-false (text_eq_refl id) (Active-Finished m id id a f)

not_started {ℓ} :
    {A : Type ℓ} (m : ScenarioStore) (id : Text) (k : Result A ScenarioError)
    → Finished m id
    → Ensures (λ _. ⊥) (ensure_run_active m id >> k)
not_started m id k f =
    Ensures-bind _ (ensure_run_active m id) (λ _. k)
      (λ _ e. absurd (not-Active m id f (ensure_run_active-Active m id e)))

refuses_again {ℓ} :
    {A : Type ℓ} (m : ScenarioStore) (id : Text) (k : ScenarioRun → Result A ScenarioError)
    → Finished m id
    → Ensures
        (λ _. ⊥)
        (found (get_scenario_run m id) (unknown_run id) >>= λ r.
          ensure (is_running r.finished_at r.status) (finished_run id r.status) >> k r)
refuses_again m id k f = Ensures-found _ (get_scenario_run m id) (unknown_run id) _ (λ r e.
    Ensures-bind _ (ensure (is_running r.finished_at r.status) (finished_run id r.status))
      (λ _. k r)
      (λ _ g. absurd (
        not-Active m id f
          (r, e, ok_ensure (is_running r.finished_at r.status) (finished_run id r.status) g))))

module _ (is_whitespace : ℕ → Bool) where
  present {ℓ} :
      {A : Type ℓ} (s : Text) (k : Result A ScenarioError)
      → Ensures (λ _. ⊥) k
      → Ensures (λ _. ⊥) (ensure_present is_whitespace s >> k)
  present s k h = Ensures-bind _ (ensure_present is_whitespace s) (λ _. k) (λ _ _. h)

  -- A run that has a time of finish takes no step, no assertion and no sample, and is not finished
  -- again: each of the four operations returns an error.
  pub closed_run_refuses :
      (m : ScenarioStore) (id : Text) (step_id : Option Text) (name kind status suffix now : Text)
      (command_line expected actual category notes capture_method summary_path : Option Text)
      (sample_ms : Double)
      → Finished m id
      → (is_err (record_step is_whitespace m id name kind command_line suffix now) ≡ true)
        × (is_err (
              create_assertion_record is_whitespace m id step_id name expected actual status
                category notes suffix)
            ≡ true)
        × (is_err (
              create_latency_record is_whitespace m id step_id name sample_ms capture_method suffix)
            ≡ true)
        × (is_err (finish_run_record is_whitespace m id status summary_path now) ≡ true)
  unfolding record_step create_assertion_record create_latency_record finish_run_record
  closed_run_refuses m id step_id name kind status suffix now command_line expected actual category
        notes capture_method summary_path sample_ms f =
      (
        Ensures-err _ (present id _ (present name _ (present kind _ (not_started m id _ f)))),
        Ensures-err _ (present id _ (present name _ (present status _ (not_started m id _ f)))),
        Ensures-err _ (
            present id _ (
              present name _ (
                Ensures-bind _ (ensure (is_nonnegative sample_ms) negative_sample) _
                  (λ _ _. not_started m id _ f)))),
        Ensures-err _ (present id _ (present status _ (refuses_again m id _ f))),
      )

  -- In a well-formed store, a run that has a step without a time of finish cannot be finished.
  pub unfinished_step_refuses :
      (m : ScenarioStore) (s : ScenarioStep) (status : Text) (summary_path : Option Text)
      (now : Text)
      → WellFormed m
      → Memᴰ s m.steps
      → is_some s.finished_at ≡ false
      → is_err (finish_run_record is_whitespace m s.run_id status summary_path now) ≡ true
  unfolding finish_run_record
  unfinished_step_refuses m s status summary_path now v at unfinished = Ensures-err _ (
      present s.run_id _ (
        present status _ (
          Ensures-found _ (get_scenario_run m s.run_id) (unknown_run s.run_id) _ (λ r e.
            Ensures-bind _
              (ensure (is_running r.finished_at r.status) (finished_run s.run_id r.status)) _
              (λ _ g.
                Ensures-bind _
                  (ensure (every (λ t. is_some t.finished_at) (list_scenario_steps m s.run_id))
                    active_steps)
                  _
                  (λ _ h.
                    let all =
                      ok_ensure
                        (every (λ t. is_some t.finished_at) (list_scenario_steps m s.run_id))
                        active_steps h in
                    let listed = every-All _ _ (
                      ap (every (λ t. is_some t.finished_at))
                        (sym (list_scenario_steps_lem m s.run_id v))
                      ∙ all) in
                    let done =
                      All-mem _
                        (keep-All_inverse (of_run s.run_id) (λ t. is_some t.finished_at ≡ true)
                          m.steps listed)
                        at in
                    absurd (true-false (done (text_eq_refl s.run_id)) unfinished)))))))
