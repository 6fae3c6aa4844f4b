-- ===== src/Scenarios/Valid.antt =====
-- When the tables of scenario runs and steps (crates/pengu-mesh-state/src/lib.rs) are well formed,
-- and which changes of one row keep them so.
use pengu_mesh.Prelude.{
  keep-snoc, ℕ, zero, suc, ◌+◌, max, ◌<◌, ◌≡◌, refl, sym, ap, ◌∙◌, inl, inr, true, false, some,
  List, [], ◌∷◌, ◌++◌, map, arith, Bool-cases, Text, text_eq, text_eq_iff, length, length-append,
  All,
}
use pengu_mesh.StableId.{IsIdChar}
use pengu_mesh.Tables.{find_row, update_row}
use pengu_mesh.Tables.Laws.{UniqueKeys}
use pengu_mesh.Scenarios.{
  ScenarioRun, ScenarioStep, ScenarioStore, run_key, step_key, of_run, steps_of, max_ordinal,
}
use pengu_mesh.Scenarios.Checks.{is_some}
use pengu_mesh.Scenarios.Listing.{step_before, list_scenario_steps}
use pengu_mesh.Tables.Query.{insert_by, order_by}

-- The numbers from `i` on, `n` of them.
abbrev pub numbers : ℕ → ℕ → List ℕ
numbers i zero = []
numbers i (suc n) = i ∷ numbers (i + 1) n

-- The step's run is in the table, and is not finished before the step is.
abbrev pub Owned : List ScenarioRun → ScenarioStep → Type 0
Owned runs s =
    (r : ScenarioRun) × (find_row run_key runs s.run_id ≡ some r)
    × (is_some s.finished_at ≡ false → is_some r.finished_at ≡ false)

-- The steps of each run are numbered from 1 on in the order in which they were created.
abbrev pub Numbered : List ScenarioStep → Type 0
Numbered steps =
    (run_id : Text)
    → map (λ s. s.ordinal) (steps_of run_id steps) ≡ numbers 1 (length (steps_of run_id steps))

pub record WellFormed (m : ScenarioStore) : Type 0 where
  pub run_ids : UniqueKeys run_key m.runs
  pub step_ids : UniqueKeys step_key m.steps
  pub id_chars : All (λ r. All IsIdChar r.id) m.runs
  pub owned : All (Owned m.runs) m.steps
  pub numbered : Numbered m.steps

numbers-snoc : (i n : ℕ) → numbers i n ++ (i + n) ∷ [] ≡ numbers i (suc n)
numbers-snoc i zero = let e : i + 0 ≡ i = omega arith in rw e refl
numbers-snoc i (suc n) =
    let e : i + suc n ≡ i + 1 + n = omega arith in rw e (ap (◌∷◌ i) (numbers-snoc (i + 1) n))

map-snoc {ℓ κ} :
    {A : Type ℓ} {B : Type κ} (f : A → B) (xs : List A) (a : A)
    → map f (xs ++ a ∷ []) ≡ map f xs ++ f a ∷ []
map-snoc f [] a = refl
map-snoc f (x ∷ xs) a = ap (◌∷◌ (f x)) (map-snoc f xs a)

max_numbered :
    (i : ℕ) (steps : List ScenarioStep) (n : ℕ)
    → map (λ s. s.ordinal) steps ≡ numbers (i + 1) n
    → max i (max_ordinal steps) ≡ i + n
unfolding max_ordinal
max_numbered i [] zero e = omega arith
max_numbered i [] (suc n) e = cc
max_numbered i (s ∷ steps) zero e = cc
max_numbered i (s ∷ steps) (suc n) e = ground (arith, max_numbered (i + 1) steps n)

-- A step that has the next ordinal keeps the steps numbered.
pub insert-Numbered :
    (steps : List ScenarioStep) (s : ScenarioStep)
    → Numbered steps
    → s.ordinal ≡ max_ordinal (steps_of s.run_id steps) + 1
    → Numbered (steps ++ s ∷ [])
insert-Numbered steps s h next run_id = elim (Bool-cases (of_run run_id s)) [
  | inl e ↦
      let same : s.run_id ≡ run_id = (text_eq_iff s.run_id run_id).0 e in
      let own : List ScenarioStep = steps_of run_id steps in
      let n : max 0 (max_ordinal own) ≡ 0 + length own =
        max_numbered 0 own (length own) (h run_id) in
      let last : s.ordinal ≡ 1 + length own =
        omega (arith, next ∙ ap (λ k. max_ordinal (steps_of k steps) + 1) same) in
      let longer : length (own ++ s ∷ []) ≡ suc (length own) =
        omega (arith, length-append own (s ∷ [])) in
      rw (keep-snoc (of_run run_id) steps s, e, longer)
        (map-snoc (λ t. t.ordinal) own s
          ∙ ap (λ x. x ++ s.ordinal ∷ []) (h run_id)
          ∙ ap (λ k. numbers 1 (length own) ++ k ∷ []) last
          ∙ numbers-snoc 1 (length own))
  | inr e ↦ rw (keep-snoc (of_run run_id) steps s, e) (h run_id)
]

-- An update that keeps a step's run and ordinal keeps the steps numbered.
steps_of-update :
    (steps : List ScenarioStep) (s : ScenarioStep) (run_id : Text)
    → All (λ t. text_eq t.id s.id ≡ true → (t.run_id ≡ s.run_id) × (t.ordinal ≡ s.ordinal)) steps
    → map (λ t. t.ordinal) (steps_of run_id (update_row step_key steps s))
      ≡ map (λ t. t.ordinal) (steps_of run_id steps)
unfolding update_row
steps_of-update [] s run_id h = refl
steps_of-update (t ∷ steps) s run_id h = elim (Bool-cases (text_eq t.id s.id)) [
  | inl e ↦
      let same : text_eq t.run_id run_id ≡ text_eq s.run_id run_id =
        ap (λ k. text_eq k run_id) (h.0 e).0 in
      elim (Bool-cases (text_eq s.run_id run_id)) [
        | inl f ↦
            rw (e, f, same ∙ f, sym (h.0 e).1)
              (ap (◌∷◌ t.ordinal) (steps_of-update steps s run_id h.1))
        | inr f ↦ rw (e, f, same ∙ f) (steps_of-update steps s run_id h.1)
      ]
  | inr e ↦ rw e (ground (arith, steps_of-update steps s run_id h.1))
]

length-map {ℓ κ} :
    {A : Type ℓ} {B : Type κ} (f : A → B) (xs : List A) → length (map f xs) ≡ length xs
length-map f [] = refl
length-map f (x ∷ xs) = omega (arith, length-map f xs)

pub update-Numbered :
    (steps : List ScenarioStep) (s : ScenarioStep)
    → Numbered steps
    → All (λ t. text_eq t.id s.id ≡ true → (t.run_id ≡ s.run_id) × (t.ordinal ≡ s.ordinal)) steps
    → Numbered (update_row step_key steps s)
update-Numbered steps s h same run_id =
    let before = steps_of run_id steps in
    let after = steps_of run_id (update_row step_key steps s) in
    let e : map (λ t. t.ordinal) after ≡ map (λ t. t.ordinal) before =
      steps_of-update steps s run_id same in
    let n : length after ≡ length before =
      sym (length-map (λ t. t.ordinal) after) ∙ ap length e ∙ length-map (λ t. t.ordinal) before in
    rw n (e ∙ h run_id)

ordered :
    (i : ℕ) (steps : List ScenarioStep)
    → map (λ s. s.ordinal) steps ≡ numbers i (length steps)
    → order_by step_before steps ≡ steps
unfolding order_by insert_by
ordered i [] e = refl
ordered i (s ∷ []) e = refl
ordered i (s ∷ t ∷ steps) e =
    let next : s.ordinal < t.ordinal = ground arith in
    let later : step_before t s ≡ false = ground (arith, next) in
    rw (ordered (i + 1) (t ∷ steps) (ground arith), later) refl

-- In a well-formed store, `list_scenario_steps` lists the steps of the run in the order in which they
-- were created.
pub list_scenario_steps_lem :
    (m : ScenarioStore) (run_id : Text)
    → WellFormed m
    → list_scenario_steps m run_id ≡ steps_of run_id m.steps
unfolding list_scenario_steps
list_scenario_steps_lem m run_id v = ordered 1 (steps_of run_id m.steps) (v.numbered run_id)
