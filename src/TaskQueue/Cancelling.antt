-- ===== src/TaskQueue/Cancelling.antt =====
-- What `cancel` of crates/pengu-mesh-core/src/task_queue.rs removes, and what it keeps.
use pengu_mesh.Prelude.{
  ◌-◌, ◌≡◌, ◌≢◌, refl, ◌⊎◌, inl, inr, Bool, true, false, some, List, ◌∷◌, arith, if◌then◌else◌,
  Text, text_eq, text_eq_iff, All, All-mono, find_first, Perm,
}
use pengu_mesh.TaskQueue.{TaskQueue, QueuedTask, agent_count, drop_task, cancel}
use pengu_mesh.TaskQueue.Selection.{Cancelled, absent, removed, cancel_cases}
use pengu_mesh.TaskQueue.Bounds.{decrement_agent_count, decrement_agent_rest}

-- A task is out of the queue: the other tasks stay, the count of its agent falls by one and those of
-- the other agents do not change, and the limits and the order of service are as they were.
pub record TakenOut (q : TaskQueue) (t : QueuedTask) (q' : TaskQueue) : Type 0 where
  pub others_stay : Perm q.tasks (t ∷ q'.tasks)
  pub one_less :
      (a : Text)
      → agent_count q' a ≡ (if text_eq t.agent_id a then agent_count q a - 1 else agent_count q a)
  pub same_config : q'.config ≡ q.config
  pub same_served : q'.last_served ≡ q.last_served
  pub same_order : q'.next_service_order ≡ q.next_service_order

drop_task-TakenOut :
    (q : TaskQueue) (t : QueuedTask) (rest : List QueuedTask)
    → Perm q.tasks (t ∷ rest)
    → TakenOut q t (drop_task q (some (t, rest))).1
unfolding drop_task agent_count
drop_task-TakenOut q t rest p =
    let (tasks, config, served, order) =
      decrement_agent_rest (record q { tasks = rest }) t.agent_id in
    record {
      others_stay = rw tasks p;
      one_less = λ a. decrement_agent_count (record q { tasks = rest }) t.agent_id a;
      same_config = config;
      same_served = served;
      same_order = order;
    }

-- Where the first task with an identifier stands in the queue, `cancel` returns true and takes that
-- task out of the queue: the other tasks stay, the count of its agent falls by one, not below 0, and
-- nothing else changes. Where no task has the identifier, it returns false and changes nothing.
pub cancel_lem :
    (q : TaskQueue) (task_id : Text)
    → ((t : QueuedTask) × (find_first (λ u. text_eq u.id task_id) q.tasks ≡ some t)
        × (t.id ≡ task_id)
        × ((cancel q task_id).0 ≡ true)
        × TakenOut q t (cancel q task_id).1)
      ⊎ (All (λ u. u.id ≢ task_id) q.tasks × (cancel q task_id ≡ (false, q)))
unfolding drop_task
cancel_lem q task_id = go (cancel q task_id) (cancel_cases q task_id)
  where
    go :
        (r : Bool × TaskQueue)
        → Cancelled q task_id r
        → ((t : QueuedTask) × (find_first (λ u. text_eq u.id task_id) q.tasks ≡ some t)
            × (t.id ≡ task_id)
            × (r.0 ≡ true)
            × TakenOut q t r.1)
          ⊎ (All (λ u. u.id ≢ task_id) q.tasks × (r ≡ (false, q)))
    go _ (absent none_has) =
        inr
          (All-mono _ _ q.tasks (λ u n e. ground (arith, text_eq_iff u.id task_id)) none_has, refl)
    go _ (removed t rest found same p) = inl (t, found, same, refl, drop_task-TakenOut q t rest p)
