-- ===== src/Scenarios/Kept.antt =====
-- What the operations of crates/pengu-mesh-core/src/scenario_recorder.rs leave of the evidence.
use pengu_mesh.Prelude.{
  ℕ, ◌≡◌, refl, sym, ap, subst, ◌∙◌, Bool, true, false, Option, none, some, Text, every, All,
  All-mono, All-mem, Result, ok, err, Ensures, Ensures-bind, Ensures-both, Ensures-found, ensure,
  found, ◌>>=◌, trim, trim-All,
}
use pengu_mesh.StableId.{stable_id, IsIdChar, scenario_step}
use pengu_mesh.Tables.{find_row}
use pengu_mesh.Tables.Laws.{find-mem}
use pengu_mesh.Scenarios.{
  ScenarioStore, Double, ScenarioError, unknown_run, unknown_step, finished_run, finished_step,
  active_steps, negative_sample, run_key, step_key, insert_scenario_step, get_scenario_run,
  get_scenario_step, new_step, next_scenario_step_ordinal, create_scenario_step,
  insert_scenario_assertion, insert_latency_sample,
}
use pengu_mesh.Scenarios.Recorder.{
  record_step, new_assertion, create_assertion_record, new_sample, create_latency_record,
}
use pengu_mesh.Scenarios.Checks.{
  is_some, is_running, is_nonnegative, ensure_run_active, ensure_step, ensure_present, given,
}
use pengu_mesh.Scenarios.Finishing.{ended_step, finish_step_record, ended_run, finish_run_record}
use pengu_mesh.Scenarios.Listing.{list_scenario_steps}
use pengu_mesh.Scenarios.Calls.{stored}
use pengu_mesh.Scenarios.Valid.{WellFormed}
use pengu_mesh.Scenarios.Keeps.{
  insert_scenario_step-WellFormed, update_scenario_step-WellFormed, update_scenario_run-WellFormed,
}
use pengu_mesh.Scenarios.Frozen.{Active, running_open, Kept, Kept-refl}
use pengu_mesh.Scenarios.Changes.{
  Unseen, insert_scenario_step-Unseen, insert_scenario_assertion-Kept, insert_latency_sample-Kept,
  update_scenario_step-Unseen, update_scenario_run-Unseen,
}

-- The result of an operation on `m`: the new store keeps what it should.
abbrev pub Stores {ℓ} :
    {A : Type ℓ} → ScenarioStore → Result (A × ScenarioStore) ScenarioError → Type 0
Stores m r = Ensures (λ p. Kept m p.1) r

pub Stores-stored {ℓ} :
    {A : Type ℓ} (m : ScenarioStore) (r : Result (A × ScenarioStore) ScenarioError)
    → WellFormed m
    → Stores m r
    → Kept m (stored m r)
unfolding Ensures
Stores-stored m (ok a) v h = h
Stores-stored m (err e) v h = Kept-refl m v

ok_found {ℓ μ} :
    {A : Type ℓ} {E : Type μ} (o : Option A) (e : E) (f : A → Result (Unit {0}) E)
    → (found o e >>= f) ≡ ok tt
    → (a : A) × (o ≡ some a) × (f a ≡ ok tt)
ok_found none e f h = cc
ok_found (some a) e f h = (a, refl, h)

pub ok_ensure {μ} : {E : Type μ} (b : Bool) (e : E) → ensure b e ≡ ok tt → b ≡ true
ok_ensure true e h = refl
ok_ensure false e h = cc

pub ensure_run_active-Active :
    (m : ScenarioStore) (k : Text) → ensure_run_active m k ≡ ok tt → Active m k
unfolding ensure_run_active
ensure_run_active-Active m k e =
    let (r, f, g) =
      ok_found (get_scenario_run m k) (unknown_run k)
        (λ r. ensure (is_running r.finished_at r.status) (finished_run k r.status)) e in
    (r, f, ok_ensure (is_running r.finished_at r.status) (finished_run k r.status) g)

Active-chars : (m : ScenarioStore) (k : Text) → WellFormed m → Active m k → All IsIdChar k
unfolding get_scenario_run
Active-chars m k v (r, e, a) =
    let (at, key) = find-mem run_key m.runs k {r = r} e in
    subst (All IsIdChar) key (All-mem _ v.id_chars at)

stored_with {ℓ} :
    {A : Type ℓ} (m : ScenarioStore) (a : A) (r : Result ScenarioStore ScenarioError)
    → Ensures (Kept m) r
    → Stores m (r >>= λ m'. ok (a, m'))
unfolding Ensures
stored_with m a (ok m') h = h
stored_with m a (err e) h = tt

create_scenario_step-Kept :
    (m : ScenarioStore) (step_id run_id name kind : Text) (command_line : Option Text) (now : Text)
    → WellFormed m
    → Active m run_id
    → Stores m (create_scenario_step m step_id run_id name kind command_line now)
unfolding create_scenario_step next_scenario_step_ordinal get_scenario_run
create_scenario_step-Kept m step_id run_id name kind command_line now v (r, e, a) =
    let s = new_step m step_id run_id name kind command_line now in
    let well =
      insert_scenario_step-WellFormed m s v (r, e, λ _. running_open r.finished_at r.status a)
        refl in
    stored_with m s (insert_scenario_step m s) (
      Ensures-both WellFormed (Unseen m) (insert_scenario_step m s) well
        (insert_scenario_step-Unseen m s (r, e, a)))

module _ (is_whitespace : ℕ → Bool)
    (id_chars : (c : ℕ) → IsIdChar c → is_whitespace c ≡ false) where
  Active-trim :
      (m : ScenarioStore) (k : Text) → WellFormed m → Active m k → Active m (trim is_whitespace k)
  Active-trim m k v a =
      subst (Active m)
        (sym (trim-All is_whitespace k (All-mono _ _ k id_chars (Active-chars m k v a)))) a

  pub record_step-Kept :
      (m : ScenarioStore) (run_id name kind : Text) (command_line : Option Text) (suffix now : Text)
      → WellFormed m
      → Stores m (record_step is_whitespace m run_id name kind command_line suffix now)
  unfolding record_step
  record_step-Kept m run_id name kind command_line suffix now v =
      Ensures-bind _ (ensure_present is_whitespace run_id) _ (λ _ _.
        Ensures-bind _ (ensure_present is_whitespace name) _ (λ _ _.
          Ensures-bind _ (ensure_present is_whitespace kind) _ (λ _ _.
            Ensures-bind _ (ensure_run_active m run_id) _ (λ _ e.
              create_scenario_step-Kept m (stable_id scenario_step suffix)
                (trim is_whitespace run_id) (trim is_whitespace name) (trim is_whitespace kind)
                (given is_whitespace command_line) now v
                (Active-trim m run_id v (ensure_run_active-Active m run_id e))))))

  insert-Active :
      (m : ScenarioStore) (run_id k : Text)
      → WellFormed m
      → ensure_run_active m run_id ≡ ok tt
      → k ≡ trim is_whitespace run_id
      → Active m k
  insert-Active m run_id k v e h =
      subst (Active m) (sym h) (Active-trim m run_id v (ensure_run_active-Active m run_id e))

  pub create_assertion_record-Kept :
      (m : ScenarioStore) (run_id : Text) (step_id : Option Text) (name : Text)
      (expected actual : Option Text) (status : Text) (failure_category notes : Option Text)
      (suffix : Text)
      → WellFormed m
      → Stores m (
          create_assertion_record is_whitespace m run_id step_id name expected actual status
            failure_category notes suffix)
  unfolding create_assertion_record
  create_assertion_record-Kept m run_id step_id name expected actual status failure_category notes
        suffix v =
      let a =
        new_assertion is_whitespace run_id step_id name expected actual status failure_category
          notes suffix in
      Ensures-bind _ (ensure_present is_whitespace run_id) _ (λ _ _.
        Ensures-bind _ (ensure_present is_whitespace name) _ (λ _ _.
          Ensures-bind _ (ensure_present is_whitespace status) _ (λ _ _.
            Ensures-bind _ (ensure_run_active m run_id) _ (λ _ e.
              Ensures-bind _ (ensure_step m step_id run_id) _ (λ _ _.
                stored_with m a (insert_scenario_assertion m a) (
                  insert_scenario_assertion-Kept m a v
                    (insert-Active m run_id a.run_id v e refl)))))))

  pub create_latency_record-Kept :
      (m : ScenarioStore) (run_id : Text) (step_id : Option Text) (metric : Text)
      (sample_ms : Double) (capture_method : Option Text) (suffix : Text)
      → WellFormed m
      → Stores m (
          create_latency_record is_whitespace m run_id step_id metric sample_ms capture_method
            suffix)
  unfolding create_latency_record
  create_latency_record-Kept m run_id step_id metric sample_ms capture_method suffix v =
      let s = new_sample is_whitespace run_id step_id metric sample_ms capture_method suffix in
      Ensures-bind _ (ensure_present is_whitespace run_id) _ (λ _ _.
        Ensures-bind _ (ensure_present is_whitespace metric) _ (λ _ _.
          Ensures-bind _ (ensure (is_nonnegative sample_ms) negative_sample) _ (λ _ _.
            Ensures-bind _ (ensure_run_active m run_id) _ (λ _ e.
              Ensures-bind _ (ensure_step m step_id run_id) _ (λ _ _.
                stored_with m s (insert_latency_sample m s)
                  (insert_latency_sample-Kept m s v (insert-Active m run_id s.run_id v e refl)))))))

  pub finish_step_record-Kept :
      (m : ScenarioStore) (step_id status : Text) (error_code : Option Text) (now : Text)
      → WellFormed m
      → Stores m (finish_step_record is_whitespace m step_id status error_code now)
  unfolding finish_step_record get_scenario_step Ensures
  finish_step_record-Kept m step_id status error_code now v =
      Ensures-bind _ (ensure_present is_whitespace step_id) _ (λ _ _.
        Ensures-bind _ (ensure_present is_whitespace status) _ (λ _ _.
          Ensures-found _ (get_scenario_step m step_id) (unknown_step step_id) _ (λ s e.
            Ensures-bind _
              (ensure (is_running s.finished_at s.status) (finished_step step_id s.status)) _
              (λ _ g.
                let running =
                  ok_ensure (is_running s.finished_at s.status) (finished_step step_id s.status)
                    g in
                let t = ended_step is_whitespace s status error_code now in
                let at : get_scenario_step m t.id ≡ some s =
                  ap (find_row step_key m.steps) (find-mem step_key m.steps step_id {r = s} e).1
                  ∙ e in
                (
                  update_scenario_step-WellFormed m s t v at refl refl refl,
                  update_scenario_step-Unseen m s t v at refl
                      (running_open s.finished_at s.status running),
                )))))

  pub finish_run_record-Kept :
      (m : ScenarioStore) (run_id status : Text) (summary_path : Option Text) (now : Text)
      → WellFormed m
      → Stores m (finish_run_record is_whitespace m run_id status summary_path now)
  unfolding finish_run_record get_scenario_run Ensures
  finish_run_record-Kept m run_id status summary_path now v =
      Ensures-bind _ (ensure_present is_whitespace run_id) _ (λ _ _.
        Ensures-bind _ (ensure_present is_whitespace status) _ (λ _ _.
          Ensures-found _ (get_scenario_run m run_id) (unknown_run run_id) _ (λ r e.
            Ensures-bind _
              (ensure (is_running r.finished_at r.status) (finished_run run_id r.status)) _
              (λ _ g.
                Ensures-bind _
                  (ensure (every (λ s. is_some s.finished_at) (list_scenario_steps m run_id))
                    active_steps)
                  _
                  (λ _ h.
                    let running =
                      ok_ensure (is_running r.finished_at r.status) (finished_run run_id r.status)
                        g in
                    let done =
                      ok_ensure (every (λ s. is_some s.finished_at) (list_scenario_steps m run_id))
                        active_steps h in
                    let t = ended_run is_whitespace r status summary_path now in
                    let key : t.id ≡ run_id = (find-mem run_key m.runs run_id {r = r} e).1 in
                    let at : get_scenario_run m t.id ≡ some r =
                      ap (find_row run_key m.runs) key ∙ e in
                    (
                      update_scenario_run-WellFormed m r t v at (
                          ap (λ k. every (λ s. is_some s.finished_at) (list_scenario_steps m k)) key
                          ∙ done),
                      update_scenario_run-Unseen m t (r, at, running),
                    ))))))
