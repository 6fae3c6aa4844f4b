-- ===== src/TaskQueue/Selection.antt =====
-- What `dequeue` and `cancel` take out of the queue.
use pengu_mesh.Prelude.{
  ℕ, suc, ◌<◌, ◌≡◌, refl, sym, ap, subst, ◌⊎◌, inl, inr, Bool, true, false, Option, none, some,
  List, [], ◌∷◌, ◌++◌, arith, Bool-cases, Text, text_eq, text_lt, text_lt_total, All, All-mono,
  All-append, length-append, append-nil, append_assoc, get_elem?, length, Perm, swap_remove_lem,
  position_lem, text_eq_iff, lookup, find_first,
}
use pengu_mesh.TaskQueue.{
  TaskQueue, QueuedTask, candidate_beats, best_from, best_index, serve, dequeue, dequeue_from,
  drop_task, cancel, cancel_at, record_service, decrement_agent, decrement_agent, record_service,
}
use pengu_mesh.TaskQueue.Order.{candidate_beats_irrefl, candidate_beats_trans}

-- No task of the list beats the task.
abbrev pub Unbeaten : TaskQueue → QueuedTask → List QueuedTask → Type 0
Unbeaten q t ts = All (λ u. candidate_beats q u t ≡ false) ts

-- What beats one task and does not lose to another: a step of the loop keeps the best so far.
Unbeaten-beats :
    (q : TaskQueue) (t u : QueuedTask) (ts : List QueuedTask)
    → candidate_beats q t u ≡ true
    → Unbeaten q u ts
    → Unbeaten q t ts
Unbeaten-beats q t u ts b h =
    All-mono _ _ ts (λ v n. ground (arith, candidate_beats_trans q v t u)) h

get_elem?-append :
    {A : Type 0} (xs : List A) (a : A) (ys : List A) → get_elem? (xs ++ a ∷ ys) (length xs) ≡ some a
get_elem?-append [] a ys = refl
get_elem?-append (x ∷ xs) a ys = get_elem?-append xs a ys

-- The loop ends at a task of the list that no task of it beats, if it starts at one that no task
-- before it beats.
best_from_lem :
    (q : TaskQueue) (all : List QueuedTask) (best n : ℕ) (current : QueuedTask)
    (seen ts : List QueuedTask)
    → all ≡ seen ++ ts
    → n ≡ length seen
    → get_elem? all best ≡ some current
    → Unbeaten q current seen
    → (t : QueuedTask) × (get_elem? all (best_from q best current n ts) ≡ some t) × Unbeaten q t all
unfolding best_from
best_from_lem q all best n current seen [] e len at h = (current, at, rw (e, append-nil) h)
best_from_lem q all best n current seen (t ∷ ts) e len at h =
    elim (Bool-cases (candidate_beats q t current)) [
      | inl b ↦ rw b (
          best_from_lem q all n (suc n) t (seen ++ t ∷ []) ts here longer
            (rw (e, len) (get_elem?-append seen t ts))
            (All-append _ seen (t ∷ []) (Unbeaten-beats q t current seen b h)
              (candidate_beats_irrefl q t, tt)))
      | inr b ↦ rw b (
          best_from_lem q all best (suc n) current (seen ++ t ∷ []) ts here longer at
            (All-append _ seen (t ∷ []) h (b, tt)))
    ]
  where
    here : all ≡ (seen ++ t ∷ []) ++ ts
    here = rw append_assoc e

    longer : suc n ≡ length (seen ++ t ∷ [])
    longer = omega (arith, length-append seen (t ∷ []))

best_index_lem :
    (q : TaskQueue) (u : QueuedTask) (us : List QueuedTask)
    → (t : QueuedTask) × (get_elem? (u ∷ us) (best_index q u us) ≡ some t) × Unbeaten q t (u ∷ us)
unfolding best_index
best_index_lem q u us =
    best_from_lem q (u ∷ us) 0 1 u (u ∷ []) us refl refl refl (candidate_beats_irrefl q u, tt)

dequeue_from_lem :
    (q : TaskQueue) (u : QueuedTask) (us : List QueuedTask)
    → (t : QueuedTask) × (rest : List QueuedTask) × (dequeue_from q (u ∷ us)
        ≡ serve q (some (t, rest)))
      × Perm (u ∷ us) (t ∷ rest)
      × Unbeaten q t (u ∷ us)
unfolding dequeue_from
dequeue_from_lem q u us =
    let (t, at, best) = best_index_lem q u us in
    let (rest, e, p) = swap_remove_lem (best_index q u us) (u ∷ us) t at in
    (t, rest, ap (serve q) e, p, best)

-- What a call of `dequeue` returns, and the tasks that it leaves.
pub data Dequeued (q : TaskQueue) : Option QueuedTask × TaskQueue → Type 0 where
  nothing : q.tasks ≡ [] → Dequeued q (none, q)
  taken :
      (t : QueuedTask) (rest : List QueuedTask)
      → Perm q.tasks (t ∷ rest)
      → Unbeaten q t q.tasks
      → Dequeued q (serve q (some (t, rest)))

-- `dequeue` returns nothing exactly for the empty queue, which it leaves as it is. Of any other it
-- returns a task that no task of the queue beats, and keeps the other tasks.
pub dequeue_lem : (q : TaskQueue) → Dequeued q (dequeue q)
unfolding dequeue
dequeue_lem q = go q.tasks refl
  where
    go : (ts : List QueuedTask) → q.tasks ≡ ts → Dequeued q (dequeue_from q ts)
    go [] e = nothing e
    go (u ∷ us) e =
        let (t, rest, d, p, best) = dequeue_from_lem q u us in
        rw d (
          taken t rest (subst (λ ts. Perm ts (t ∷ rest)) (sym e) p)
            (subst (Unbeaten q t) (sym e) best))

-- How recently an agent was served: 0 for never, and the higher the later.
abbrev pub recency : TaskQueue → Text → ℕ
recency q a = elim (lookup a q.last_served) [ none ↦ 0 | some n ↦ suc n ]

-- A task comes before another: by priority, then by its agent's recency, then by its time, then by
-- the agent's name, then by its id.
abbrev pub ComesBefore : TaskQueue → QueuedTask → QueuedTask → Type 0
ComesBefore q t u =
    (u.priority < t.priority)
    ⊎ ((u.priority ≡ t.priority)
        × ((recency q t.agent_id < recency q u.agent_id)
            ⊎ ((recency q t.agent_id ≡ recency q u.agent_id)
                × ((t.enqueued_at < u.enqueued_at)
                    ⊎ ((t.enqueued_at ≡ u.enqueued_at)
                        × ((text_lt t.agent_id u.agent_id ≡ true)
                            ⊎ ((t.agent_id ≡ u.agent_id) × (text_lt u.id t.id ≡ false))))))))

Unbeaten-ComesBefore :
    (q : TaskQueue) (t u : QueuedTask) → candidate_beats q u t ≡ false → ComesBefore q t u
unfolding candidate_beats
Unbeaten-ComesBefore q t u h =
    ground (arith, text_eq_iff u.agent_id t.agent_id, text_lt_total t.agent_id u.agent_id)

serve-tasks :
    (q : TaskQueue) (t : QueuedTask) (rest : List QueuedTask)
    → (serve q (some (t, rest))).1.tasks ≡ rest
unfolding serve record_service decrement_agent
serve-tasks q t rest = ground arith

-- The task that `dequeue` returns leaves the queue, the others stay, and it comes before every
-- task of the queue: by priority, then the agent served least recently, then first in first
-- out.
pub dequeue-ComesBefore :
    (q : TaskQueue) (t : QueuedTask)
    → (dequeue q).0 ≡ some t
    → Perm q.tasks (t ∷ (dequeue q).1.tasks) × All (ComesBefore q t) q.tasks
dequeue-ComesBefore q t h = go (dequeue q) (dequeue_lem q) h
  where
    go :
        (r : Option QueuedTask × TaskQueue)
        → Dequeued q r
        → r.0 ≡ some t
        → Perm q.tasks (t ∷ r.1.tasks) × All (ComesBefore q t) q.tasks
    go _ (nothing _) e = cc
    go _ (taken s rest p best) e =
        let is_t : s ≡ t = unfold serve in cc in
        (
          rw (serve-tasks q s rest) (subst (λ x. Perm q.tasks (x ∷ rest)) is_t p),
          subst (λ x. All (ComesBefore q x) q.tasks) is_t
              (All-mono _ _ q.tasks (λ u h. Unbeaten-ComesBefore q s u h) best),
        )

-- What a call of `cancel` returns for a task id, and the list that it leaves to the bookkeeping.
pub data Cancelled (q : TaskQueue) (task_id : Text) : Bool × TaskQueue → Type 0 where
  absent : All (λ t. text_eq t.id task_id ≡ false) q.tasks → Cancelled q task_id (false, q)
  removed :
      (t : QueuedTask) (rest : List QueuedTask)
      → find_first (λ u. text_eq u.id task_id) q.tasks ≡ some t
      → t.id ≡ task_id
      → Perm q.tasks (t ∷ rest)
      → Cancelled q task_id (drop_task q (some (t, rest)))

-- The two outcomes of `cancel`.
pub cancel_cases : (q : TaskQueue) (task_id : Text) → Cancelled q task_id (cancel q task_id)
unfolding cancel
cancel_cases q task_id = elim (position_lem (λ task. text_eq task.id task_id) q.tasks) [
  | inl (e, h) ↦ rw (ap (cancel_at q) e) (absent h)
  | inr (i, t, e, at, found, same) ↦
      let (rest, e2, p) = swap_remove_lem i q.tasks t at in
      rw (ap (cancel_at q) e, ap (drop_task q) e2)
        (removed t rest found ((text_eq_iff t.id task_id).0 same) p)
]
