-- ===== src/TaskQueue/Examples.antt =====
-- Runs of the task queue (crates/pengu-mesh-core/src/task_queue.rs).
use pengu_mesh.Prelude.{
  ◌≡◌, refl, ◌⊎◌, some, List, [], ◌∷◌, ◌++◌, arith, codes, length, Perm, All, Memᴰ, lookup, insert,
  remove, text_eq, text_lt, text_ne, swap_remove, split_last, position, ok, err, ◌<◌, ◌≢◌, true,
  false, find_first,
}
use pengu_mesh.TaskQueue.{
  TaskQueue, TaskQueueConfig, QueuedTask, candidate_beats, record_service, decrement_agent, new,
  enqueue, dequeue, cancel, at_capacity, agent_limit_reached,
}
use pengu_mesh.TaskQueue.Selection.{ComesBefore, dequeue-ComesBefore}
use pengu_mesh.TaskQueue.Cancelling.{TakenOut, cancel_lem}
use pengu_mesh.TaskQueue.Bounds.{
  IsValid, tasks_of, call, Call, enqueues, calls, calls-new-IsValid, enqueue_lem,
}
use pengu_mesh.TaskQueue.Fairness.{dequeue_twice}

abbrev config : TaskQueueConfig
config = record { max_capacity = 4; max_per_agent = 2 }

abbrev a1 : QueuedTask
a1 = record { id = codes "a1"; agent_id = codes "agent_a"; priority = 5; enqueued_at = 0 }

abbrev a2 : QueuedTask
a2 = record { id = codes "a2"; agent_id = codes "agent_a"; priority = 5; enqueued_at = 1 }

abbrev b1 : QueuedTask
b1 = record { id = codes "b1"; agent_id = codes "agent_b"; priority = 2; enqueued_at = 2 }

abbrev history : List Call
history = enqueues a1 ∷ enqueues a2 ∷ enqueues b1 ∷ []

abbrev both : TaskQueue
both = calls (new config) history

dequeue_first : (dequeue both).0 ≡ some a1
unfolding calls call new enqueue dequeue candidate_beats lookup insert text_eq text_lt swap_remove
dequeue_first = refl

dequeue_second : (dequeue (dequeue both).1).0 ≡ some a2
unfolding calls call new enqueue dequeue record_service decrement_agent candidate_beats lookup
    insert remove text_eq text_lt swap_remove split_last
dequeue_second = refl

calls-new-IsValid_example : IsValid both
calls-new-IsValid_example = calls-new-IsValid config history

dequeue-ComesBefore_example :
    Perm both.tasks (a1 ∷ (dequeue both).1.tasks) × All (ComesBefore both a1) both.tasks
dequeue-ComesBefore_example = dequeue-ComesBefore both a1 dequeue_first

cancel_lem_example :
    ((t : QueuedTask) × (find_first (λ u. text_eq u.id (codes "a2")) both.tasks ≡ some t)
      × (t.id ≡ codes "a2")
      × ((cancel both (codes "a2")).0 ≡ true)
      × TakenOut both t (cancel both (codes "a2")).1)
    ⊎ (All (λ u. u.id ≢ codes "a2") both.tasks × (cancel both (codes "a2") ≡ (false, both)))
cancel_lem_example = cancel_lem both (codes "a2")

cancelled_leaves : (cancel both (codes "a2")).1.tasks ≡ a1 ∷ b1 ∷ []
unfolding calls call new enqueue cancel decrement_agent lookup insert text_eq swap_remove split_last
    position
cancelled_leaves = refl

third_refused : enqueue both (record a1 { id = codes "a3" }) ≡ (err agent_limit_reached, both)
unfolding calls call new enqueue lookup insert text_eq
third_refused = refl

enqueue_lem_example :
    ((length both.tasks ≡ 4) × (enqueue both b1 ≡ (err at_capacity, both)))
    ⊎ ((length both.tasks < 4)
        × (tasks_of b1.agent_id both.tasks ≡ 2)
        × (enqueue both b1 ≡ (err agent_limit_reached, both)))
    ⊎ ((length both.tasks < 4)
        × (tasks_of b1.agent_id both.tasks < 2)
        × ((enqueue both b1).0 ≡ ok tt)
        × ((enqueue both b1).1.tasks ≡ both.tasks ++ b1 ∷ []))
unfolding calls call new enqueue lookup insert text_eq
enqueue_lem_example = enqueue_lem both b1 (calls-new-IsValid config history)

dequeue_twice_example : b1.priority < a2.priority
unfolding calls call new enqueue dequeue record_service decrement_agent candidate_beats lookup
    insert remove text_eq text_lt swap_remove split_last
dequeue_twice_example =
    dequeue_twice both a1 a2 b1 (calls-new-IsValid config history) (omega arith) dequeue_first
      dequeue_second refl (Memᴰ.head refl) (text_ne (codes "agent_b") (codes "agent_a") refl)
