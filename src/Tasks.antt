-- ===== src/Tasks.antt =====
-- The tables tasks and scheduler_metrics of crates/pengu-mesh-state/src/lib.rs, with the types of
-- their rows. The parameters of a task are the text of their JSON. The numbers
-- that SQLite gives to the rows of the metrics are left out.
pub mod Updates
pub mod Counting
mod Examples
use pengu_mesh.Prelude.{
  ℕ, ◌+◌, ◌^◌, ltb, Bool, true, false, not, ◌&&◌, ◌||◌, Option, none, some, List, [], ◌∷◌, ◌++◌,
  map, if◌then◌else◌, Text, text_eq, text_lt, codes, keep, exists, Result, ok, err, ◌>>=◌, ◌>>◌,
  ensure,
}
use pengu_mesh.Tables.{find_row, key_taken}
use pengu_mesh.Tables.Query.{order_by, limit}

pub data TaskState : Type 0 where
  pending running finished failed cancelled : TaskState

pub data TaskPriority : Type 0 where
  low normal high critical : TaskPriority

pub record TaskRecord : Type 0 where
  pub id : Text
  pub agent_id : Text
  pub action : Text
  pub state : TaskState
  pub priority : TaskPriority
  pub arguments : Option Text
  pub created_at : Text
  pub started_at : Option Text
  pub completed_at : Option Text
  pub latency_ms : Option ℕ

pub data TaskError : Type 0 where
  constraint_failed latency_overflow : TaskError
  not_found : Text → TaskError

abbrev pub task_key : TaskRecord → Text
task_key t = t.id

abbrev pub state_eq : TaskState → TaskState → Bool
state_eq pending pending = true
state_eq running running = true
state_eq finished finished = true
state_eq failed failed = true
state_eq cancelled cancelled = true
state_eq _ _ = false

-- `i64::try_from` of an `u64` succeeds.
abbrev pub fits_i64 : Option ℕ → Bool
fits_i64 none = true
fits_i64 (some n) = ltb n (2 ^ 63)

unfoldable pub insert_task : List TaskRecord → TaskRecord → Result (List TaskRecord) TaskError
insert_task tasks t = do
  ensure (fits_i64 t.latency_ms) latency_overflow
  ensure (not (key_taken task_key tasks t.id)) constraint_failed
  ok (tasks ++ t ∷ [])

-- `COALESCE(?, column)`.
abbrev pub coalesce {ℓ} : {A : Type ℓ} → Option A → Option A → Option A
coalesce none old = old
coalesce (some a) old = some a

abbrev pub updated : TaskState → Option Text → Option Text → Option ℕ → TaskRecord → TaskRecord
updated state started_at completed_at latency_ms t = record t {
  state = state;
  started_at = coalesce started_at t.started_at;
  completed_at = coalesce completed_at t.completed_at;
  latency_ms = coalesce latency_ms t.latency_ms;
}

-- `UPDATE tasks SET ... WHERE id = ?1`.
unfoldable pub update_where : Text → (TaskRecord → TaskRecord) → List TaskRecord → List TaskRecord
update_where id f tasks = map (λ t. if text_eq t.id id then f t else t) tasks

unfoldable pub update_task_state :
    List TaskRecord
    → Text
    → TaskState
    → Option Text
    → Option Text
    → Option ℕ
    → Result (List TaskRecord) TaskError
unfolding update_where
update_task_state tasks id state started_at completed_at latency_ms = do
  ensure (fits_i64 latency_ms) latency_overflow
  ensure (key_taken task_key tasks id) (not_found id)
  ok (update_where id (updated state started_at completed_at latency_ms) tasks)

abbrev pub wanted : Option Text → Option TaskState → TaskRecord → Bool
wanted none none t = true
wanted none (some state) t = state_eq t.state state
wanted (some agent) none t = text_eq t.agent_id agent
wanted (some agent) (some state) t = text_eq t.agent_id agent && state_eq t.state state

-- `ORDER BY created_at DESC`.
abbrev pub newer_task : TaskRecord → TaskRecord → Bool
newer_task t u = text_lt u.created_at t.created_at

unfoldable pub query_tasks : List TaskRecord → Option Text → Option TaskState → ℕ → List TaskRecord
unfolding order_by limit
query_tasks tasks agent_id state n =
    limit n (order_by newer_task (keep (wanted agent_id state) tasks))

unfoldable pub query_task : List TaskRecord → Text → Option TaskRecord
query_task tasks id = find_row task_key tasks id

pub record SchedulerMetricRow : Type 0 where
  pub metric_name : Text
  pub agent_id : Option Text
  pub counter : ℕ
  pub last_updated : Text

-- The conflict of `UNIQUE(metric_name, agent_id)`: a NULL is equal to nothing, itself included.
abbrev pub same_metric : Text → Text → Text → Option Text → Bool
same_metric metric_name agent m none = false
same_metric metric_name agent m (some a) = text_eq m metric_name && text_eq a agent

abbrev pub conflicts : Text → Option Text → SchedulerMetricRow → Bool
conflicts metric_name none r = false
conflicts metric_name (some agent) r = same_metric metric_name agent r.metric_name r.agent_id

abbrev pub counted : Text → SchedulerMetricRow → SchedulerMetricRow
counted timestamp r = record r { counter = r.counter + 1; last_updated = timestamp }

-- `INSERT ... ON CONFLICT(metric_name, agent_id) DO UPDATE`. The counter, an `i64`, does not overflow.
unfoldable pub increment_scheduler_metric :
    List SchedulerMetricRow → Text → Option Text → Text → List SchedulerMetricRow
increment_scheduler_metric rows metric_name agent_id timestamp =
    if exists (conflicts metric_name agent_id) rows
    then map (λ r. if conflicts metric_name agent_id r then counted timestamp r else r) rows
    else rows
      ++ record {
        metric_name = metric_name;
        agent_id = agent_id;
        counter = 1;
        last_updated = timestamp;
      }
        ∷ []

-- `metric_name = ?1`, and `agent_id = ?1`, which no NULL meets.
abbrev pub has_metric : Option Text → SchedulerMetricRow → Bool
has_metric none r = true
has_metric (some name) r = text_eq r.metric_name name

abbrev pub has_agent : Option Text → SchedulerMetricRow → Bool
has_agent none r = true
has_agent (some agent) r = elim r.agent_id [ none ↦ false | some a ↦ text_eq a agent ]

-- `ORDER BY metric_name, agent_id`, where a NULL comes first.
abbrev pub agent_before : Option Text → Option Text → Bool
agent_before none none = false
agent_before none (some b) = true
agent_before (some a) none = false
agent_before (some a) (some b) = text_lt a b

abbrev pub metric_before : SchedulerMetricRow → SchedulerMetricRow → Bool
metric_before r s =
    if text_eq r.metric_name s.metric_name
    then agent_before r.agent_id s.agent_id
    else text_lt r.metric_name s.metric_name

unfoldable pub query_scheduler_metrics :
    List SchedulerMetricRow → Option Text → Option Text → List SchedulerMetricRow
unfolding order_by
query_scheduler_metrics rows metric_name agent_id =
    order_by metric_before (keep (λ r. has_metric metric_name r && has_agent agent_id r) rows)

unfoldable pub reset_scheduler_metrics : List SchedulerMetricRow → List SchedulerMetricRow
reset_scheduler_metrics rows = []
