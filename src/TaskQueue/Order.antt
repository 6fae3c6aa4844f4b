-- ===== src/TaskQueue/Order.antt =====
-- The order in which `dequeue` takes tasks (`candidate_beats`).
use pengu_mesh.Prelude.{
  ◌≡◌, true, false, arith, text_eq_iff, text_lt_irrefl, text_lt_trans, text_lt_total,
}
use pengu_mesh.TaskQueue.{TaskQueue, QueuedTask, candidate_beats}

pub candidate_beats_irrefl : (q : TaskQueue) (t : QueuedTask) → candidate_beats q t t ≡ false
unfolding candidate_beats
candidate_beats_irrefl q t = ground (arith, text_lt_irrefl t.agent_id, text_lt_irrefl t.id)

pub candidate_beats_trans :
    (q : TaskQueue) (t u v : QueuedTask)
    → candidate_beats q t u ≡ true
    → candidate_beats q u v ≡ true
    → candidate_beats q t v ≡ true
unfolding candidate_beats
candidate_beats_trans q t u v h k = ground (
  arith,
  text_eq_iff t.agent_id u.agent_id,
  text_eq_iff u.agent_id v.agent_id,
  text_eq_iff t.agent_id v.agent_id,
  text_lt_irrefl t.agent_id,
  text_lt_trans t.agent_id u.agent_id v.agent_id,
  text_lt_trans t.agent_id u.agent_id t.agent_id,
  text_lt_trans t.id u.id v.id,
)

-- Of two tasks neither of which beats the other, the ids and the agents are the same.
pub candidate_beats_total :
    (q : TaskQueue) (t u : QueuedTask)
    → candidate_beats q t u ≡ false
    → candidate_beats q u t ≡ false
    → (t.id ≡ u.id) × (t.agent_id ≡ u.agent_id)
unfolding candidate_beats
candidate_beats_total q t u h k = ground (
  arith,
  text_eq_iff t.agent_id u.agent_id,
  text_eq_iff u.agent_id t.agent_id,
  text_lt_total t.agent_id u.agent_id,
  text_lt_total t.id u.id,
)
