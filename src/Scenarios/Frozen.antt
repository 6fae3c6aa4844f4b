-- ===== src/Scenarios/Frozen.antt =====
-- The evidence of a run (crates/pengu-mesh-state/src/lib.rs), and the changes of the tables that a
-- finished run does not see.
use pengu_mesh.Prelude.{
  keep-snoc, ◌≡◌, refl, sym, ap, ◌∙◌, inl, inr, Bool, true, false, Option, none, some, List, [],
  ◌∷◌, ◌++◌, arith, if◌then◌else◌, Bool-cases, Text, text_eq, text_eq_iff, keep, All, All-mem,
}
use pengu_mesh.Tables.{find_row, update_row}
use pengu_mesh.Tables.Laws.{find-mem}
use pengu_mesh.Scenarios.{
  ScenarioRun, ScenarioStep, ScenarioAssertion, LatencySample, ScenarioStore, run_key, step_key,
  of_run, steps_of, get_scenario_run, get_scenario_step,
}
use pengu_mesh.Scenarios.Checks.{is_some, is_running}
use pengu_mesh.Scenarios.Valid.{WellFormed}

-- The run's record, with its steps, its assertions and its samples.
abbrev pub evidence :
    ScenarioStore
    → Text
    → Option ScenarioRun × List ScenarioStep × List ScenarioAssertion × List LatencySample
evidence m id = (
  get_scenario_run m id,
  steps_of id m.steps,
  keep (λ a. text_eq a.run_id id) m.assertions,
  keep (λ s. text_eq s.run_id id) m.samples,
)

abbrev pub Finished : ScenarioStore → Text → Type 0
Finished m id =
    (r : ScenarioRun) × (get_scenario_run m id ≡ some r) × (is_some r.finished_at ≡ true)

abbrev pub Active : ScenarioStore → Text → Type 0
Active m id =
    (r : ScenarioRun) × (get_scenario_run m id ≡ some r)
    × (is_running r.finished_at r.status ≡ true)

pub running_open : (f : Option Text) (s : Text) → is_running f s ≡ true → is_some f ≡ false
running_open none s e = refl
running_open (some x) s e = cc

-- An active run is not a finished one.
pub Active-Finished :
    (m : ScenarioStore) (k id : Text) → Active m k → Finished m id → text_eq k id ≡ false
Active-Finished m k id (r, e, a) (s, f, b) = elim (Bool-cases (text_eq k id)) [
  | inl g ↦
      let same : r ≡ s =
        let h : some r ≡ some s = sym e ∙ ap (get_scenario_run m) ((text_eq_iff k id).0 g) ∙ f in
        cc in
      absurd (
        ground
          (arith, running_open r.finished_at r.status a, b, ap (λ x. is_some x.finished_at) same))
  | inr g ↦ g
]

pub keep-snoc_other {ℓ} :
    {A : Type ℓ} (p : A → Bool) (xs : List A) (a : A)
    → p a ≡ false
    → keep p (xs ++ a ∷ []) ≡ keep p xs
keep-snoc_other p xs a e =
    keep-snoc p xs a ∙ ap (λ b. if b then keep p xs ++ a ∷ [] else keep p xs) e

-- The rows of a run that an update of another run's step leaves.
pub steps_of-update_ne :
    (steps : List ScenarioStep) (t : ScenarioStep) (id : Text)
    → All (λ s. text_eq s.id t.id ≡ true → of_run id s ≡ false) steps
    → of_run id t ≡ false
    → steps_of id (update_row step_key steps t) ≡ steps_of id steps
unfolding update_row
steps_of-update_ne [] t id h ne = refl
steps_of-update_ne (s ∷ steps) t id h ne = elim (Bool-cases (text_eq s.id t.id)) [
  | inl e ↦ rw (e, ne, h.0 e) (steps_of-update_ne steps t id h.1 ne)
  | inr e ↦ rw e (ap (λ k. if of_run id s then s ∷ k else k) (steps_of-update_ne steps t id h.1 ne))
]

-- A step of a finished run is finished.
pub Finished-steps_of :
    (m : ScenarioStore) (s : ScenarioStep) (k id : Text)
    → WellFormed m
    → Finished m id
    → get_scenario_step m k ≡ some s
    → is_some s.finished_at ≡ false
    → of_run id s ≡ false
unfolding get_scenario_step get_scenario_run
Finished-steps_of m s k id v (r, f, b) found_s unfinished = elim (Bool-cases (of_run id s)) [
  | inl e ↦
      let (own, g, no_end) = All-mem _ v.owned (find-mem step_key m.steps k {r = s} found_s).0 in
      let same : own ≡ r =
        let h : some own ≡ some r =
          sym g ∙ ap (find_row run_key m.runs) ((text_eq_iff s.run_id id).0 e) ∙ f in
        cc in
      absurd (ground (arith, no_end unfinished, b, ap (λ x. is_some x.finished_at) same))
  | inr e ↦ e
]

-- What a change leaves of the evidence of the finished runs.
abbrev pub Kept : ScenarioStore → ScenarioStore → Type 0
Kept m m' = WellFormed m' × ((id : Text) → Finished m id → evidence m' id ≡ evidence m id)

pub Kept-refl : (m : ScenarioStore) → WellFormed m → Kept m m
Kept-refl m v = (v, λ id f. refl)

pub Kept-Finished : (m m' : ScenarioStore) (id : Text) → Kept m m' → Finished m id → Finished m' id
Kept-Finished m m' id k (r, f, b) = (r, ap (λ x. x.0) (k.1 id (r, f, b)) ∙ f, b)

pub Kept-trans : (m m' m'' : ScenarioStore) → Kept m m' → Kept m' m'' → Kept m m''
Kept-trans m m' m'' k l = (l.0, λ id f. l.1 id (Kept-Finished m m' id k f) ∙ k.1 id f)
