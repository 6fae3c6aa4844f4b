-- ===== src/TaskQueue/Bounds.antt =====
-- The bookkeeping of the queue: the per-agent counts, both limits, and the order of service.
use pengu_mesh.Prelude.{
  ℕ, ◌+◌, ◌-◌, ◌≤◌, ◌<◌, min, ◌≡◌, ◌≢◌, refl, ◌⊎◌, Bool, Option, some, List, [], ◌∷◌, ◌++◌, arith,
  if◌then◌else◌, Text, text_eq, text_eq_iff, length, Perm, count, count-append, count-Perm,
  length-Perm, length-append, lookup, insert, lookup-insert, lookup-remove, ok, err,
}
use pengu_mesh.TaskQueue.{
  TaskQueue, TaskQueueConfig, QueuedTask, at_capacity, agent_limit_reached, or_zero, new, enqueue,
  serve, dequeue, drop_task, cancel, decrement_agent, record_service, u64_max,
}
use pengu_mesh.TaskQueue.Selection.{
  Dequeued, nothing, taken, dequeue_lem, Cancelled, absent, removed, cancel_cases,
}

-- How many tasks of the list are an agent's.
abbrev pub tasks_of : Text → List QueuedTask → ℕ
tasks_of agent = count (λ t. text_eq t.agent_id agent)

pub record IsValid (q : TaskQueue) : Type 0 where
  pub counted : (a : Text) → or_zero (lookup a q.agent_counts) ≡ tasks_of a q.tasks
  pub no_zero : (a : Text) → lookup a q.agent_counts ≢ some 0
  pub within_capacity : length q.tasks ≤ q.config.max_capacity
  pub within_agent : (a : Text) → tasks_of a q.tasks ≤ q.config.max_per_agent
  pub served_before :
      (a : Text) (n : ℕ) → lookup a q.last_served ≡ some n → n ≤ q.next_service_order
  pub order_bounded : q.next_service_order ≤ u64_max

-- A new queue is valid.
pub new-IsValid : (c : TaskQueueConfig) → IsValid (new c)
unfolding new lookup
new-IsValid c = record {
  counted = λ a. refl;
  no_zero = λ a e. cc;
  within_capacity = omega arith;
  within_agent = λ a. omega arith;
  served_before = λ a n e. cc;
  order_bounded = omega arith;
}

-- `enqueue` keeps the queue valid: it admits no task beyond the capacity or the agent's limit.
pub enqueue-IsValid : (q : TaskQueue) (t : QueuedTask) → IsValid q → IsValid (enqueue q t).1
unfolding enqueue
enqueue-IsValid q t v = record {
  counted = λ a. ground (
    arith,
    v.counted a,
    v.counted t.agent_id,
    count-append (λ t. text_eq t.agent_id a) q.tasks (t ∷ []),
    lookup-insert t.agent_id a (or_zero (lookup t.agent_id q.agent_counts) + 1) q.agent_counts,
    text_eq_iff t.agent_id a,
  );
  no_zero = λ a e. ground (
    arith,
    v.no_zero a,
    lookup-insert t.agent_id a (or_zero (lookup t.agent_id q.agent_counts) + 1) q.agent_counts,
  );
  within_capacity = ground (arith, v.within_capacity, length-append q.tasks (t ∷ []));
  within_agent = λ a. ground (
    arith,
    v.within_agent a,
    v.counted a,
    count-append (λ t. text_eq t.agent_id a) q.tasks (t ∷ []),
    text_eq_iff t.agent_id a,
  );
  served_before = λ a n e. ground (arith, v.served_before a n);
  order_bounded = ground (arith, v.order_bounded);
}

-- What the queue needs of its last entry to be valid once that task's agent is decremented.
pub decrement_agent_count :
    (q : TaskQueue) (a b : Text)
    → or_zero (lookup b (decrement_agent q a).agent_counts) ≡ (
        if text_eq a b
        then or_zero (lookup b q.agent_counts) - 1
        else or_zero (lookup b q.agent_counts))
unfolding decrement_agent
decrement_agent_count q a b =
    let n : ℕ = or_zero (lookup a q.agent_counts) - 1 in
    ground (
      arith,
      lookup-insert a b n q.agent_counts,
      lookup-remove a b (insert a n q.agent_counts),
      text_eq_iff a b,
    )

decrement_agent_no_zero :
    (q : TaskQueue) (a b : Text)
    → lookup b q.agent_counts ≢ some 0
    → lookup b (decrement_agent q a).agent_counts ≢ some 0
unfolding decrement_agent
decrement_agent_no_zero q a b h e =
    let n : ℕ = or_zero (lookup a q.agent_counts) - 1 in
    ground (
      arith,
      h,
      lookup-insert a b n q.agent_counts,
      lookup-remove a b (insert a n q.agent_counts),
      text_eq_iff a b,
    )

pub decrement_agent_rest :
    (q : TaskQueue) (a : Text)
    → ((decrement_agent q a).tasks ≡ q.tasks)
      × ((decrement_agent q a).config ≡ q.config)
      × ((decrement_agent q a).last_served ≡ q.last_served)
      × ((decrement_agent q a).next_service_order ≡ q.next_service_order)
unfolding decrement_agent
decrement_agent_rest q a = ground arith

-- Once a task is out of the list, its agent's count falls by one.
drop-IsValid :
    (q : TaskQueue) (t : QueuedTask) (rest : List QueuedTask)
    → IsValid q
    → Perm q.tasks (t ∷ rest)
    → IsValid (decrement_agent (record q { tasks = rest }) t.agent_id)
drop-IsValid q t rest v p =
    let (same_tasks, same_config, same_served, same_order) =
      decrement_agent_rest (record q { tasks = rest }) t.agent_id in
    record {
      counted = λ a. rw same_tasks (
          ground (
            arith,
            split a,
            v.counted a,
            decrement_agent_count (record q { tasks = rest }) t.agent_id a,
          ));
      no_zero = λ a. decrement_agent_no_zero (record q { tasks = rest }) t.agent_id a (v.no_zero a);
      within_capacity =
          rw (same_tasks, same_config) (omega (arith, v.within_capacity, length-Perm p));
      within_agent = λ a. rw (same_tasks, same_config) (ground (arith, v.within_agent a, split a));
      served_before = λ a n e. ground (arith, v.served_before a n, same_served, same_order);
      order_bounded = rw same_order v.order_bounded;
    }
  where
    split : (a : Text) → tasks_of a q.tasks ≡ tasks_of a (t ∷ rest)
    split a = count-Perm (λ t. text_eq t.agent_id a) p

record_service-IsValid : (q : TaskQueue) (a : Text) → IsValid q → IsValid (record_service q a)
unfolding record_service
record_service-IsValid q a v = record {
  counted = v.counted;
  no_zero = v.no_zero;
  within_capacity = v.within_capacity;
  within_agent = v.within_agent;
  served_before = λ b n e. ground (
    arith,
    v.served_before b n,
    v.order_bounded,
    lookup-insert a b (min (q.next_service_order + 1) u64_max) q.last_served,
  );
  order_bounded = omega arith;
}

-- `dequeue` keeps the queue valid.
pub dequeue-IsValid : (q : TaskQueue) → IsValid q → IsValid (dequeue q).1
unfolding serve record_service
dequeue-IsValid q v = go (dequeue q) (dequeue_lem q)
  where
    go : (r : Option QueuedTask × TaskQueue) → Dequeued q r → IsValid r.1
    go _ (nothing e) = v
    go _ (taken t rest p best) =
        drop-IsValid (record_service q t.agent_id) t rest (record_service-IsValid q t.agent_id v) p

-- `cancel` keeps the queue valid.
pub cancel-IsValid : (q : TaskQueue) (task_id : Text) → IsValid q → IsValid (cancel q task_id).1
unfolding drop_task
cancel-IsValid q task_id v = go (cancel q task_id) (cancel_cases q task_id)
  where
    go : (r : Bool × TaskQueue) → Cancelled q task_id r → IsValid r.1
    go _ (absent h) = v
    go _ (removed t rest found same p) = drop-IsValid q t rest v p

-- The calls that change a queue.
pub data Call : Type 0 where
  enqueues : QueuedTask → Call
  dequeues : Call
  cancels : Text → Call

unfoldable pub call : TaskQueue → Call → TaskQueue
call q (enqueues t) = (enqueue q t).1
call q dequeues = (dequeue q).1
call q (cancels task_id) = (cancel q task_id).1

unfoldable pub calls : TaskQueue → List Call → TaskQueue
calls q [] = q
calls q (c ∷ cs) = calls (call q c) cs

call-IsValid : (q : TaskQueue) (c : Call) → IsValid q → IsValid (call q c)
unfolding call
call-IsValid q (enqueues t) v = enqueue-IsValid q t v
call-IsValid q dequeues v = dequeue-IsValid q v
call-IsValid q (cancels task_id) v = cancel-IsValid q task_id v

pub calls-IsValid : (q : TaskQueue) (cs : List Call) → IsValid q → IsValid (calls q cs)
unfolding calls
calls-IsValid q [] v = v
calls-IsValid q (c ∷ cs) v = calls-IsValid (call q c) cs (call-IsValid q c v)

-- After any calls on a new queue each agent's count is the number of its tasks in the queue and
-- no entry is 0, no limit is passed, and no agent was served later than the last order given
-- out.
pub calls-new-IsValid : (c : TaskQueueConfig) (cs : List Call) → IsValid (calls (new c) cs)
calls-new-IsValid c cs = calls-IsValid (new c) cs (new-IsValid c)

-- In a valid queue a task is refused at capacity, and else at its agent's limit, and a refusal
-- changes nothing; otherwise it is admitted at the end of the queue.
pub enqueue_lem :
    (q : TaskQueue) (t : QueuedTask)
    → IsValid q
    → ((length q.tasks ≡ q.config.max_capacity) × (enqueue q t ≡ (err at_capacity, q)))
      ⊎ ((length q.tasks < q.config.max_capacity)
          × (tasks_of t.agent_id q.tasks ≡ q.config.max_per_agent)
          × (enqueue q t ≡ (err agent_limit_reached, q)))
      ⊎ ((length q.tasks < q.config.max_capacity)
          × (tasks_of t.agent_id q.tasks < q.config.max_per_agent)
          × ((enqueue q t).0 ≡ ok tt)
          × ((enqueue q t).1.tasks ≡ q.tasks ++ t ∷ []))
unfolding enqueue
enqueue_lem q t v =
    ground (arith, v.within_capacity, v.within_agent t.agent_id, v.counted t.agent_id)
