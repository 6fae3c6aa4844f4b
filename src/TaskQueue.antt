-- ===== src/TaskQueue.antt =====
-- crates/pengu-mesh-core/src/task_queue.rs: the in-memory task queue with bounded admission and
-- per-agent fairness. An `Instant` is the number of its tick; `HashMap` is an association list.
pub mod Order
pub mod Selection
pub mod Bounds
pub mod Fairness
pub mod Cancelling
mod Examples
use Prim.Native.Nat.{compare, Ordering}
use pengu_mesh.Prelude.{
  ℕ, suc, ◌+◌, ◌-◌, ◌^◌, min, Bool, true, false, not, Option, none, some, List, [], ◌∷◌, ◌++◌, leb,
  ltb, ◌==◌, if◌then◌else◌, Text, text_eq, text_lt, length, lookup, insert, remove, Result, ok, err,
  swap_remove, position,
}

pub record TaskQueueConfig : Type 0 where
  pub max_capacity : ℕ
  pub max_per_agent : ℕ

pub record QueuedTask : Type 0 where
  pub id : Text
  pub agent_id : Text
  pub priority : ℕ  -- u8
  pub enqueued_at : ℕ

pub data QueueError : Type 0 where
  at_capacity agent_limit_reached : QueueError

pub record TaskQueue : Type 0 where
  pub config : TaskQueueConfig
  pub tasks : List QueuedTask
  pub agent_counts : List (Text × ℕ)
  pub last_served : List (Text × ℕ)
  pub next_service_order : ℕ  -- u64

unfoldable pub new : TaskQueueConfig → TaskQueue
new c = record {
  config = c;
  tasks = [];
  agent_counts = [];
  last_served = [];
  next_service_order = 0;
}

-- `.copied().unwrap_or(0)`.
abbrev pub or_zero : Option ℕ → ℕ
or_zero none = 0
or_zero (some n) = n

unfoldable pub agent_count : TaskQueue → Text → ℕ
agent_count q agent = or_zero (lookup agent q.agent_counts)

-- The counts of agents stay below `max_per_agent`, so `+= 1` does not overflow.
unfoldable pub enqueue : TaskQueue → QueuedTask → Result (Unit {0}) QueueError × TaskQueue
unfolding agent_count
enqueue q task =
    if leb q.config.max_capacity (length q.tasks)
    then (err at_capacity, q)
    else if leb q.config.max_per_agent (agent_count q task.agent_id)
    then (err agent_limit_reached, q)
    else (
      ok tt,
      record q {
        agent_counts =
            insert task.agent_id (or_zero (lookup task.agent_id q.agent_counts) + 1) q.agent_counts;
        tasks = q.tasks ++ task ∷ [];
      },
    )

-- How recently each of two agents was served, `None` for never.
abbrev pub compare_service : Option ℕ → Option ℕ → Ordering
compare_service none none = Ordering.eq
compare_service none (some b) = Ordering.lt
compare_service (some a) none = Ordering.gt
compare_service (some a) (some b) = compare a b

unfoldable pub compare_agent_fairness : TaskQueue → Text → Text → Ordering
compare_agent_fairness q candidate_agent current_best_agent =
    compare_service (lookup candidate_agent q.last_served) (lookup current_best_agent q.last_served)

unfoldable pub candidate_beats : TaskQueue → QueuedTask → QueuedTask → Bool
unfolding compare_agent_fairness
candidate_beats q candidate current_best =
    if not (candidate.priority == current_best.priority)
    then ltb current_best.priority candidate.priority
    else elim (compare_agent_fairness q candidate.agent_id current_best.agent_id) [
      | Ordering.lt ↦ true
      | Ordering.gt ↦ false
      | Ordering.eq ↦
          if not (candidate.enqueued_at == current_best.enqueued_at)
          then ltb candidate.enqueued_at current_best.enqueued_at
          else if not (text_eq candidate.agent_id current_best.agent_id)
          then text_lt candidate.agent_id current_best.agent_id
          else text_lt candidate.id current_best.id
    ]

abbrev pub u64_max : ℕ
u64_max = 2 ^ 64 - 1

unfoldable pub record_service : TaskQueue → Text → TaskQueue
record_service q agent =
    let order = min (q.next_service_order + 1) u64_max in
    record q { next_service_order = order; last_served = insert agent order q.last_served }

unfoldable pub decrement_agent : TaskQueue → Text → TaskQueue
decrement_agent q agent = elim (lookup agent q.agent_counts) [
  | none ↦ q
  | some n ↦
      let count = n - 1 in
      if count == 0
      then record q { agent_counts = remove agent (insert agent count q.agent_counts) }
      else record q { agent_counts = insert agent count q.agent_counts }
]

-- The loop of `dequeue` from `index` on, over the tasks that are left; `current` is `tasks[best]`.
unfoldable pub best_from : TaskQueue → ℕ → QueuedTask → ℕ → List QueuedTask → ℕ
best_from q best current index [] = best
best_from q best current index (t ∷ ts) =
    let beats = candidate_beats q t current in
    best_from q (if beats then index else best) (if beats then t else current) (suc index) ts

-- The index of the next task; the first one stands in the list's head.
unfoldable pub best_index : TaskQueue → QueuedTask → List QueuedTask → ℕ
unfolding best_from
best_index q t ts = best_from q 0 t 1 ts

-- `swap_remove`, then the bookkeeping. The case `none` is the panic of `swap_remove`.
unfoldable pub serve :
    TaskQueue → Option (QueuedTask × List QueuedTask) → Option QueuedTask × TaskQueue
serve q none = (none, q)
serve q (some (task, rest)) = (
  some task,
  decrement_agent (record_service (record q { tasks = rest }) task.agent_id) task.agent_id,
)

unfoldable pub dequeue_from : TaskQueue → List QueuedTask → Option QueuedTask × TaskQueue
unfolding serve best_index
dequeue_from q [] = (none, q)
dequeue_from q (t ∷ ts) = serve q (swap_remove (best_index q t ts) (t ∷ ts))

unfoldable pub dequeue : TaskQueue → Option QueuedTask × TaskQueue
unfolding dequeue_from
dequeue q = dequeue_from q q.tasks

-- The removal of the task at a position, as `cancel` makes it.
unfoldable pub drop_task : TaskQueue → Option (QueuedTask × List QueuedTask) → Bool × TaskQueue
drop_task q none = (false, q)
drop_task q (some (task, rest)) = (true, decrement_agent (record q { tasks = rest }) task.agent_id)

unfoldable pub cancel_at : TaskQueue → Option ℕ → Bool × TaskQueue
unfolding drop_task
cancel_at q none = (false, q)
cancel_at q (some pos) = drop_task q (swap_remove pos q.tasks)

unfoldable pub cancel : TaskQueue → Text → Bool × TaskQueue
unfolding cancel_at
cancel q task_id = cancel_at q (position (λ task. text_eq task.id task_id) q.tasks)
