-- ===== src/TaskQueue/Fairness.antt =====
-- What consecutive calls of `dequeue` serve (crates/pengu-mesh-core/src/task_queue.rs).
use Prim.Native.Nat.{Ordering}
use pengu_mesh.Prelude.{
  ◌+◌, ◌≤◌, ◌<◌, min, ◌≡◌, ◌≢◌, inl, inr, true, false, Option, some, List, arith, Option-cases,
  Text, text_eq_iff, text_eq_refl, lookup, lookup-insert, All-mem, Memᴰ,
}
use pengu_mesh.TaskQueue.{
  TaskQueue, QueuedTask, compare_agent_fairness, candidate_beats, serve, dequeue, decrement_agent,
  record_service, u64_max,
}
use pengu_mesh.TaskQueue.Selection.{Dequeued, nothing, taken, dequeue_lem}
use pengu_mesh.TaskQueue.Bounds.{IsValid}

-- The agent was served after every other agent.
abbrev ServedLast : TaskQueue → Text → Type 0
ServedLast q a = (b : Text) → b ≢ a → compare_agent_fairness q b a ≡ Ordering.lt

serve-ServedLast :
    (q : TaskQueue) (t : QueuedTask) (rest : List QueuedTask)
    → IsValid q
    → q.next_service_order < u64_max
    → ServedLast (serve q (some (t, rest))).1 t.agent_id
unfolding serve record_service decrement_agent compare_agent_fairness
serve-ServedLast q t rest v room b other = elim (Option-cases (lookup b q.last_served)) [
  | inl e ↦ ground (
    arith,
    other,
    text_eq_iff t.agent_id b,
    text_eq_refl t.agent_id,
    lookup-insert t.agent_id b (min (q.next_service_order + 1) u64_max) q.last_served,
    lookup-insert t.agent_id t.agent_id (min (q.next_service_order + 1) u64_max) q.last_served,
  )
  | inr (m, e) ↦ ground (
    arith,
    other,
    text_eq_iff t.agent_id b,
    text_eq_refl t.agent_id,
    lookup-insert t.agent_id b (min (q.next_service_order + 1) u64_max) q.last_served,
    lookup-insert t.agent_id t.agent_id (min (q.next_service_order + 1) u64_max) q.last_served,
    v.served_before b m e,
  )
]

beats_of_ServedLast :
    (q : TaskQueue) (u v : QueuedTask)
    → compare_agent_fairness q u.agent_id v.agent_id ≡ Ordering.lt
    → v.priority ≤ u.priority
    → candidate_beats q u v ≡ true
unfolding candidate_beats
beats_of_ServedLast q u v h k = ground arith

-- Once a task is served, a task of any other agent beats each task of its agent that has at most
-- the same priority, whatever their times and ids (while the u64 order of service is not used up).
pub dequeue_yields :
    (q : TaskQueue) (t u v : QueuedTask)
    → IsValid q
    → q.next_service_order < u64_max
    → (dequeue q).0 ≡ some t
    → u.agent_id ≢ t.agent_id
    → v.agent_id ≡ t.agent_id
    → v.priority ≤ u.priority
    → candidate_beats (dequeue q).1 u v ≡ true
dequeue_yields q t u v valid room d other same lower = go (dequeue q) (dequeue_lem q) d
  where
    go :
        (r : Option QueuedTask × TaskQueue)
        → Dequeued q r
        → r.0 ≡ some t
        → candidate_beats r.1 u v ≡ true
    go _ (nothing _) e = cc
    go _ (taken s rest p best) e =
        let is_t : s ≡ t = unfold serve in cc in
        beats_of_ServedLast (serve q (some (s, rest))).1 u v
          (rw same (rw (← is_t) (serve-ServedLast q s rest valid room u.agent_id (rw is_t other))))
          lower

-- If two tasks of one agent are dequeued in a row from a valid queue, whose u64 order of
-- service is not used up, while a task of another agent waits, then that task has a lower
-- priority than the second.
pub dequeue_twice :
    (q : TaskQueue) (t v : QueuedTask) (u : QueuedTask)
    → IsValid q
    → q.next_service_order < u64_max
    → (dequeue q).0 ≡ some t
    → (dequeue (dequeue q).1).0 ≡ some v
    → v.agent_id ≡ t.agent_id
    → Memᴰ u (dequeue q).1.tasks
    → u.agent_id ≢ t.agent_id
    → u.priority < v.priority
dequeue_twice q t v u valid room first second same waits other =
    go (dequeue (dequeue q).1) (dequeue_lem (dequeue q).1) second
  where
    go :
        (r : Option QueuedTask × TaskQueue)
        → Dequeued (dequeue q).1 r
        → r.0 ≡ some v
        → u.priority < v.priority
    go _ (nothing _) e = cc
    go _ (taken s rest p best) e =
        let is_v : s ≡ v = unfold serve in cc in
        let unbeaten : candidate_beats (dequeue q).1 u v ≡ false =
          rw (← is_v) (All-mem _ best waits) in
        ground (arith, dequeue_yields q t u v valid room first other same)
