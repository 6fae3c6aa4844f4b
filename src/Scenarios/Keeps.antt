-- ===== src/Scenarios/Keeps.antt =====
-- What the operations of crates/pengu-mesh-core/src/scenario_recorder.rs keep of the tables.
use pengu_mesh.Prelude.{
  keep-All_inverse, ◌≡◌, sym, ap, subst, ◌∙◌, inl, inr, true, some, List, [], ◌∷◌, arith,
  Bool-cases, text_eq, text_eq_iff, text_eq_refl, every, every-All, All, All-append, All-mono,
  All-both, All-mem, Ensures,
}
use pengu_mesh.StableId.{IsIdChar}
use pengu_mesh.Tables.{find_row, key_taken, update_row}
use pengu_mesh.Tables.Laws.{
  insert-UniqueKeys, update-UniqueKeys, find-insert_some, find-update_ne, find-update_self,
  find-mem, found_only, update-All,
}
use pengu_mesh.Scenarios.{
  ScenarioRun, ScenarioStep, ScenarioStore, run_key, step_key, of_run, insert_scenario_run,
  insert_scenario_step, update_scenario_run, update_scenario_step, get_scenario_run,
  get_scenario_step, next_scenario_step_ordinal,
}
use pengu_mesh.Scenarios.Checks.{is_some}
use pengu_mesh.Scenarios.Listing.{list_scenario_steps}
use pengu_mesh.Scenarios.Valid.{
  Owned, WellFormed, insert-Numbered, update-Numbered, list_scenario_steps_lem,
}

pub insert_scenario_run-WellFormed :
    (m : ScenarioStore) (r : ScenarioRun)
    → WellFormed m
    → All IsIdChar r.id
    → Ensures WellFormed (insert_scenario_run m r)
unfolding Ensures insert_scenario_run
insert_scenario_run-WellFormed m r v h = elim (Bool-cases (key_taken run_key m.runs r.id)) [
  | inl e ↦ rw e tt
  | inr e ↦ rw e record {
    run_ids = insert-UniqueKeys run_key m.runs r v.run_ids e;
    step_ids = v.step_ids;
    id_chars = All-append _ m.runs (r ∷ []) v.id_chars (h, tt);
    owned =
        All-mono _ _ m.steps
          (λ s (own, f, no_end).
            (own, find-insert_some run_key m.runs r s.run_id {r = own} f, no_end))
          v.owned;
    numbered = v.numbered;
  }
]

pub insert_scenario_step-WellFormed :
    (m : ScenarioStore) (s : ScenarioStep)
    → WellFormed m
    → Owned m.runs s
    → s.ordinal ≡ next_scenario_step_ordinal m s.run_id
    → Ensures WellFormed (insert_scenario_step m s)
unfolding Ensures insert_scenario_step next_scenario_step_ordinal
insert_scenario_step-WellFormed m s v own next =
    elim (Bool-cases (key_taken step_key m.steps s.id)) [
      | inl e ↦ rw e tt
      | inr e ↦ elim (Bool-cases (key_taken run_key m.runs s.run_id)) [
        | inl f ↦
            rw (e, f)
              record {
                run_ids = v.run_ids;
                step_ids = insert-UniqueKeys step_key m.steps s v.step_ids e;
                id_chars = v.id_chars;
                owned = All-append _ m.steps (s ∷ []) v.owned (own, tt);
                numbered = insert-Numbered m.steps s v.numbered next;
              }
        | inr f ↦ rw (e, f) tt
      ]
    ]

-- A step is finished: its run and its ordinal stay.
pub update_scenario_step-WellFormed :
    (m : ScenarioStore) (s t : ScenarioStep)
    → WellFormed m
    → get_scenario_step m t.id ≡ some s
    → t.run_id ≡ s.run_id
    → t.ordinal ≡ s.ordinal
    → is_some t.finished_at ≡ true
    → WellFormed (update_scenario_step m t)
unfolding get_scenario_step update_scenario_step
update_scenario_step-WellFormed m s t v found_s r o f =
    let only = found_only step_key m.steps t.id {r = s} v.step_ids found_s in
    let (own, e, _) = All-mem _ v.owned (find-mem step_key m.steps t.id {r = s} found_s).0 in
    record {
      run_ids = v.run_ids;
      step_ids = update-UniqueKeys step_key m.steps t v.step_ids;
      id_chars = v.id_chars;
      owned =
          update-All step_key (Owned m.runs) m.steps t v.owned
            (own, ap (find_row run_key m.runs) r ∙ e, λ g. absurd (ground (arith, f, g)));
      numbered = update-Numbered m.steps t v.numbered (
          All-mono _ _ m.steps
            (λ x h g.
              let same : x ≡ s = h g in
              (ap (λ y. y.run_id) same ∙ sym r, ap (λ y. y.ordinal) same ∙ sym o))
            only);
    }

Owned-update_row :
    (runs : List ScenarioRun) (r t : ScenarioRun) (s : ScenarioStep)
    → find_row run_key runs t.id ≡ some r
    → Owned runs s
    → (of_run t.id s ≡ true → is_some s.finished_at ≡ true)
    → Owned (update_row run_key runs t) s
Owned-update_row runs r t s e (own, f, no_end) done = elim (Bool-cases (text_eq t.id s.run_id)) [
  | inl g ↦
      let same : t.id ≡ s.run_id = (text_eq_iff t.id s.run_id).0 g in
      let finished : is_some s.finished_at ≡ true =
        done (ap (text_eq s.run_id) same ∙ text_eq_refl s.run_id) in
      (
        t,
        ap (find_row run_key (update_row run_key runs t)) (sym same)
            ∙ find-update_self run_key runs t {r = r} e,
        λ h. absurd (ground (arith, finished, h)),
      )
  | inr g ↦ (own, find-update_ne run_key runs t s.run_id g ∙ f, no_end)
]

-- A run is finished after its steps.
pub update_scenario_run-WellFormed :
    (m : ScenarioStore) (r t : ScenarioRun)
    → WellFormed m
    → get_scenario_run m t.id ≡ some r
    → every (λ s. is_some s.finished_at) (list_scenario_steps m t.id) ≡ true
    → WellFormed (update_scenario_run m t)
unfolding get_scenario_run update_scenario_run
update_scenario_run-WellFormed m r t v found_r all =
    let listed = every-All _ _ (
      subst (λ k. every (λ s. is_some s.finished_at) k ≡ true) (list_scenario_steps_lem m t.id v)
        all) in
    let done = keep-All_inverse (of_run t.id) (λ s. is_some s.finished_at ≡ true) m.steps listed in
    let (at, key) = find-mem run_key m.runs t.id {r = r} found_r in
    let chars = subst (All IsIdChar) key (All-mem _ v.id_chars at) in
    record {
      run_ids = update-UniqueKeys run_key m.runs t v.run_ids;
      step_ids = v.step_ids;
      id_chars = update-All run_key (λ x. All IsIdChar x.id) m.runs t v.id_chars chars;
      owned =
          All-mono _ _ m.steps (λ s h. Owned-update_row m.runs r t s found_r h.0 h.1)
            (All-both _ _ m.steps v.owned done);
      numbered = v.numbered;
    }
