-- ===== src/Tasks/Counting.antt =====
-- What `increment_scheduler_metric` of crates/pengu-mesh-state/src/lib.rs counts.
use pengu_mesh.Prelude.{
  ℕ, zero, suc, ◌+◌, ◌≡◌, refl, sym, ap, subst, ◌∙◌, inl, inr, true, false, ◌&&◌, Option, none,
  some, List, [], ◌∷◌, ◌++◌, map, arith, Bool-cases, if◌then◌else◌, Text, text_eq, text_eq_iff,
  exists, All, All-append, length, length-append,
}
use pengu_mesh.Tasks.{
  same_metric, SchedulerMetricRow, conflicts, counted, increment_scheduler_metric,
}

-- The count of the first row of a metric and an agent.
abbrev pub count_of : Text → Text → List SchedulerMetricRow → ℕ
count_of name agent [] = 0
count_of name agent (r ∷ rows) =
    if conflicts name (some agent) r then r.counter else count_of name agent rows

same_row :
    (m : Text) (o : Option Text) (name agent name' agent' : Text)
    → same_metric name agent m o ≡ true
    → same_metric name' agent' m o ≡ (text_eq name name' && text_eq agent agent')
same_row m none name agent name' agent' h = cc
same_row m (some a) name agent name' agent' h = ground (
  arith,
  text_eq_iff m name,
  text_eq_iff a agent,
  ap (λ k. text_eq k name'),
  ap (λ k. text_eq k agent'),
)

module _ (name agent timestamp : Text) where
  abbrev increased : List SchedulerMetricRow → List SchedulerMetricRow
  increased rows = map (λ r. if conflicts name (some agent) r then counted timestamp r else r) rows

  count_of-increased_other :
      (name' agent' : Text) (rows : List SchedulerMetricRow)
      → (text_eq name name' && text_eq agent agent') ≡ false
      → count_of name' agent' (increased rows) ≡ count_of name' agent' rows
  count_of-increased_other name' agent' [] ne = refl
  count_of-increased_other name' agent' (r ∷ rows) ne =
      elim (Bool-cases (conflicts name (some agent) r)) [
        | inl e ↦
            let other : conflicts name' (some agent') r ≡ false =
              same_row r.metric_name r.agent_id name agent name' agent' e ∙ ne in
            rw (e, other) (count_of-increased_other name' agent' rows ne)
        | inr e ↦ rw e (
            ap (λ k. if conflicts name' (some agent') r then r.counter else k)
              (count_of-increased_other name' agent' rows ne))
      ]

  count_of-increased_self :
      (rows : List SchedulerMetricRow)
      → exists (conflicts name (some agent)) rows ≡ true
      → count_of name agent (increased rows) ≡ count_of name agent rows + 1
  count_of-increased_self [] h = cc
  count_of-increased_self (r ∷ rows) h = elim (Bool-cases (conflicts name (some agent) r)) [
    | inl e ↦ rw (e, e) refl
    | inr e ↦ rw (e, e) (count_of-increased_self rows (ground (arith, h, e)))
  ]

  count_of-added :
      (name' agent' : Text) (rows : List SchedulerMetricRow) (a : SchedulerMetricRow)
      → count_of name' agent' (rows ++ a ∷ []) ≡ (
          if exists (conflicts name' (some agent')) rows
          then count_of name' agent' rows
          else if conflicts name' (some agent') a
          then a.counter
          else 0)
  count_of-added name' agent' [] a = refl
  count_of-added name' agent' (r ∷ rows) a = ground (arith, count_of-added name' agent' rows a)

  count_of-none :
      (name' agent' : Text) (rows : List SchedulerMetricRow)
      → exists (conflicts name' (some agent')) rows ≡ false
      → count_of name' agent' rows ≡ 0
  count_of-none name' agent' [] h = refl
  count_of-none name' agent' (r ∷ rows) h = ground (arith, h, count_of-none name' agent' rows)

  same_names :
      (name' agent' : Text)
      → (text_eq name name' && text_eq agent agent') ≡ true
      → (name ≡ name') × (agent ≡ agent')
  same_names name' agent' f = (
    (text_eq_iff name name').0 (ground (arith, f)),
    (text_eq_iff agent agent').0 (ground (arith, f)),
  )

  abbrev new_row : SchedulerMetricRow
  new_row = record {
    metric_name = name;
    agent_id = some agent;
    counter = 1;
    last_updated = timestamp;
  }

  -- An increment for an agent adds one to the count of its metric and agent, which is 0 without a row,
  -- and changes no other count of an agent.
  pub count_of-increment_scheduler_metric :
      (name' agent' : Text) (rows : List SchedulerMetricRow)
      → count_of name' agent' (increment_scheduler_metric rows name (some agent) timestamp)
        ≡ count_of name' agent' rows + (if text_eq name name' && text_eq agent agent' then 1 else 0)
  unfolding increment_scheduler_metric
  count_of-increment_scheduler_metric name' agent' rows =
      elim (Bool-cases (exists (conflicts name (some agent)) rows)) [
        | inl e ↦ elim (Bool-cases (text_eq name name' && text_eq agent agent')) [
          | inl f ↦
              let (n, a) = same_names name' agent' f in
              rw (e, f)
                (subst (λ x. count_of x agent' (increased rows) ≡ count_of x agent' rows + 1) n
                  (subst (λ y. count_of name y (increased rows) ≡ count_of name y rows + 1) a
                    (count_of-increased_self rows e)))
          | inr f ↦ rw (e, f) (omega (arith, count_of-increased_other name' agent' rows f))
        ]
        | inr e ↦ elim (Bool-cases (text_eq name name' && text_eq agent agent')) [
          | inl f ↦
              let (n, a) = same_names name' agent' f in
              let free : exists (conflicts name' (some agent')) rows ≡ false =
                subst (λ x. exists (conflicts x (some agent')) rows ≡ false) n
                  (subst (λ y. exists (conflicts name (some y)) rows ≡ false) a e) in
              rw (e, f)
                (ground (
                  arith,
                  count_of-added name' agent' rows new_row,
                  count_of-none name' agent' rows free,
                  free,
                  f,
                ))
          | inr f ↦
              rw (e, f)
                (ground (
                  arith,
                  count_of-added name' agent' rows new_row,
                  count_of-none name' agent' rows,
                  f,
                ))
        ]
      ]

-- A metric that is incremented without an agent, `n` times.
abbrev pub global_increments : Text → Text → ℕ → List SchedulerMetricRow → List SchedulerMetricRow
global_increments name timestamp zero rows = rows
global_increments name timestamp (suc n) rows =
    global_increments name timestamp n (increment_scheduler_metric rows name none timestamp)

grown :
    (name timestamp : Text) (n : ℕ) (rows : List SchedulerMetricRow)
    → All (λ r. (r.metric_name ≡ name) × (r.counter ≡ 1)) rows
    → (length (global_increments name timestamp n rows) ≡ length rows + n)
      × All
          (λ r. (r.metric_name ≡ name) × (r.counter ≡ 1))
          (global_increments name timestamp n rows)
unfolding increment_scheduler_metric
grown name timestamp zero rows h = (omega arith, h)
grown name timestamp (suc n) rows h =
    let a : SchedulerMetricRow = record {
      metric_name = name;
      agent_id = none;
      counter = 1;
      last_updated = timestamp;
    } in
    let more : increment_scheduler_metric rows name none timestamp ≡ rows ++ a ∷ [] =
      ap
        (λ b.
          if b
          then map (λ r. if conflicts name none r then counted timestamp r else r) rows
          else rows ++ a ∷ [])
        (never rows) in
    let (size, all) =
      grown name timestamp n (increment_scheduler_metric rows name none timestamp)
        (subst (All _) (sym more) (All-append _ rows (a ∷ []) h ((refl, refl), tt))) in
    (omega (arith, size, ap length more, length-append rows (a ∷ [])), all)
  where
    never : (rows : List SchedulerMetricRow) → exists (conflicts name none) rows ≡ false
    never [] = refl
    never (r ∷ rows) = never rows

-- Without an agent, `n` increments of a metric do not count to `n`: each adds a row of its own, so an empty
-- table has `n` rows then, and the counter of each is 1.
pub global_increments_lem :
    (name timestamp : Text) (n : ℕ)
    → let rows = global_increments name timestamp n [] in
      (length rows ≡ n) × All (λ r. (r.metric_name ≡ name) × (r.counter ≡ 1)) rows
global_increments_lem name timestamp n =
    let (size, rows) = grown name timestamp n [] tt in (omega (arith, size), rows)
