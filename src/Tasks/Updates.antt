-- ===== src/Tasks/Updates.antt =====
-- What `update_task_state` of crates/pengu-mesh-state/src/lib.rs changes.
use pengu_mesh.Prelude.{
  subst, ℕ, ◌≡◌, refl, sym, ap, ◌∙◌, inl, inr, Bool, true, false, ◌&&◌, Option, some, List, [], ◌∷◌,
  arith, Bool-cases, if◌then◌else◌, Text, text_eq, text_eq_iff, Result, ok, err, Ensures, All,
}
use pengu_mesh.Tables.{find_row, key_taken}
use pengu_mesh.Tables.Laws.{UniqueKeys}
use pengu_mesh.Tasks.{
  TaskState, TaskRecord, task_key, coalesce, fits_i64, updated, update_where, update_task_state,
  query_task,
}

abbrev pub is_ok {ℓ κ} : {A : Type ℓ} {E : Type κ} → Result A E → Bool
is_ok (ok a) = true
is_ok (err e) = false

module _ (id : Text) (state : TaskState) (started_at completed_at : Option Text)
    (latency_ms : Option ℕ) where
  abbrev change : TaskRecord → TaskRecord
  change = updated state started_at completed_at latency_ms

  change_key : (t : TaskRecord) → (if text_eq t.id id then change t else t).id ≡ t.id
  change_key t = elim (Bool-cases (text_eq t.id id)) [ inl e ↦ rw e refl | inr e ↦ rw e refl ]

  find-update_where_self :
      (tasks : List TaskRecord) (t : TaskRecord)
      → find_row task_key tasks id ≡ some t
      → find_row task_key (update_where id change tasks) id ≡ some (change t)
  unfolding find_row update_where
  find-update_where_self [] t e = cc
  find-update_where_self (u ∷ tasks) t e = elim (Bool-cases (text_eq u.id id)) [
    | inl f ↦ let same : u ≡ t = ground arith in rw (f, f) (ap (λ x. some (change x)) same)
    | inr f ↦ rw (f, f) (find-update_where_self tasks t (ground arith))
  ]

  find-update_where_other :
      (tasks : List TaskRecord) (k : Text)
      → text_eq id k ≡ false
      → find_row task_key (update_where id change tasks) k ≡ find_row task_key tasks k
  unfolding find_row update_where
  find-update_where_other [] k ne = refl
  find-update_where_other (u ∷ tasks) k ne = elim (Bool-cases (text_eq u.id id)) [
    | inl f ↦
        let other : text_eq u.id k ≡ false =
          ap (λ x. text_eq x k) ((text_eq_iff u.id id).0 f) ∙ ne in
        rw (f, other) (find-update_where_other tasks k ne)
    | inr f ↦ rw (f, find-update_where_other tasks k ne) refl
  ]

  update_where-fresh :
      (k : Text) (tasks : List TaskRecord)
      → All (λ t. text_eq k t.id ≡ false) tasks
      → All (λ t. text_eq k t.id ≡ false) (update_where id change tasks)
  unfolding update_where
  update_where-fresh k [] h = tt
  update_where-fresh k (t ∷ tasks) h =
      (ap (text_eq k) (change_key t) ∙ h.0, update_where-fresh k tasks h.1)

  update_where-UniqueKeys :
      (tasks : List TaskRecord)
      → UniqueKeys task_key tasks
      → UniqueKeys task_key (update_where id change tasks)
  unfolding update_where
  update_where-UniqueKeys [] u = tt
  update_where-UniqueKeys (t ∷ tasks) u = (
    subst (λ k. All (λ s. text_eq k s.id ≡ false) (update_where id change tasks))
        (sym (change_key t)) (update_where-fresh t.id tasks u.0),
    update_where-UniqueKeys tasks u.1,
  )

  taken-find :
      (tasks : List TaskRecord)
      → key_taken task_key tasks id ≡ true
      → (t : TaskRecord) × (find_row task_key tasks id ≡ some t)
  unfolding find_row key_taken
  taken-find [] h = cc
  taken-find (t ∷ tasks) h = elim (Bool-cases (text_eq t.id id)) [
    | inl e ↦ rw e (t, refl)
    | inr e ↦ rw e (taken-find tasks (ground arith))
  ]

  -- What a task that is updated has, and what stays.
  pub record Updated (tasks tasks' : List TaskRecord) : Type 0 where
    pub task : TaskRecord
    pub was : query_task tasks id ≡ some task
    pub now : TaskRecord
    pub is : query_task tasks' id ≡ some now
    pub new_state : now.state ≡ state
    pub started : now.started_at ≡ coalesce started_at task.started_at
    pub completed : now.completed_at ≡ coalesce completed_at task.completed_at
    pub latency : now.latency_ms ≡ coalesce latency_ms task.latency_ms
    pub rest :
        (now.id ≡ task.id)
        × (now.agent_id ≡ task.agent_id)
        × (now.action ≡ task.action)
        × (now.priority ≡ task.priority)
        × (now.arguments ≡ task.arguments)
        × (now.created_at ≡ task.created_at)
    pub others : (k : Text) → text_eq id k ≡ false → query_task tasks' k ≡ query_task tasks k
    pub keys : UniqueKeys task_key tasks → UniqueKeys task_key tasks'

  update_where-Updated :
      (tasks : List TaskRecord)
      → key_taken task_key tasks id ≡ true
      → Updated tasks (update_where id change tasks)
  unfolding query_task
  update_where-Updated tasks h =
      let (t, e) = taken-find tasks h in
      record {
        task = t;
        was = e;
        now = change t;
        new_state = refl;
        started = refl;
        completed = refl;
        latency = refl;
        rest = (refl, refl, refl, refl, refl, refl);
        is = find-update_where_self tasks t e;
        others = λ k ne. find-update_where_other tasks k ne;
        keys = update_where-UniqueKeys tasks;
      }

  -- An update of a task's state succeeds exactly when its latency, where it is given, is below 2 ^ 63 and
  -- there is a task with the id. Where it does, the task has the new state and those of the two times
  -- and the latency that are given, with its other fields as before, all other tasks are as before, and
  -- the keys stay unique.
  pub update_task_state_lem :
      (tasks : List TaskRecord)
      → (is_ok (update_task_state tasks id state started_at completed_at latency_ms)
          ≡ (fits_i64 latency_ms && key_taken task_key tasks id))
        × Ensures
            (Updated tasks)
            (update_task_state tasks id state started_at completed_at latency_ms)
  unfolding update_task_state Ensures
  update_task_state_lem tasks = elim (Bool-cases (fits_i64 latency_ms)) [
    | inl e ↦ elim (Bool-cases (key_taken task_key tasks id)) [
      | inl f ↦ rw (e, f) (refl, update_where-Updated tasks f)
      | inr f ↦ rw (e, f) (refl, tt)
    ]
    | inr e ↦ rw e (refl, tt)
  ]
