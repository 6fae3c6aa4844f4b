-- ===== src/Tasks/Examples.antt =====
-- Tasks and metrics (crates/pengu-mesh-state/src/lib.rs) on small tables.
use pengu_mesh.Prelude.{
  ◌+◌, ◌≡◌, ◌&&◌, none, some, List, [], ◌∷◌, if◌then◌else◌, Text, codes, text_eq, length, All,
  Ensures,
}
use pengu_mesh.Tables.{key_taken}
use pengu_mesh.Tasks.{
  TaskRecord, pending, running, normal, SchedulerMetricRow, task_key, fits_i64, update_task_state,
  increment_scheduler_metric,
}
use pengu_mesh.Tasks.Updates.{Updated, is_ok, update_task_state_lem}
use pengu_mesh.Tasks.Counting.{
  count_of, count_of-increment_scheduler_metric, global_increments, global_increments_lem,
}

abbrev task : Text → TaskRecord
task id = record {
  id = id;
  agent_id = codes "a";
  action = codes "x";
  state = pending;
  priority = normal;
  arguments = none;
  created_at = codes "1";
  started_at = none;
  completed_at = none;
  latency_ms = none;
}

abbrev tasks : List TaskRecord
tasks = task (codes "p") ∷ task (codes "q") ∷ []

update_task_state_lem_example :
    (is_ok (update_task_state tasks (codes "q") running (some (codes "2")) none (some 7))
      ≡ (fits_i64 (some 7) && key_taken task_key tasks (codes "q")))
    × Ensures
        (Updated (codes "q") running (some (codes "2")) none (some 7) tasks)
        (update_task_state tasks (codes "q") running (some (codes "2")) none (some 7))
update_task_state_lem_example =
    update_task_state_lem (codes "q") running (some (codes "2")) none (some 7) tasks

abbrev metrics : List SchedulerMetricRow
metrics =
    record {
      metric_name = codes "m";
      agent_id = some (codes "a");
      counter = 4;
      last_updated = codes "1";
    }
    ∷ []

count_of-increment_scheduler_metric_example :
    count_of
      (codes "m")
      (codes "a")
      (increment_scheduler_metric metrics (codes "m") (some (codes "a")) (codes "2"))
    ≡ count_of (codes "m") (codes "a") metrics
      + (if text_eq (codes "m") (codes "m") && text_eq (codes "a") (codes "a") then 1 else 0)
count_of-increment_scheduler_metric_example =
    count_of-increment_scheduler_metric (codes "m") (codes "a") (codes "2") (codes "m") (codes "a")
      metrics

global_increments_lem_example :
    let rows = global_increments (codes "m") (codes "1") 3 [] in
    (length rows ≡ 3) × All (λ r. (r.metric_name ≡ codes "m") × (r.counter ≡ 1)) rows
global_increments_lem_example = global_increments_lem (codes "m") (codes "1") 3
