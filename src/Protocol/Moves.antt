-- ===== src/Protocol/Moves.antt =====
-- What the transition maps allow.
use specbook.Base.{◌≡◌, ◌≢◌, true, ◌||◌, arith}
use specbook.Rows.{Status}
use specbook.Protocol.Equality.{includes}
use specbook.Protocol.{
  agent_task_transitions, human_task_transitions, assignee_task_transitions,
  autonomous_task_transitions,
}

-- The autonomous map is the union of the agent's map and the owner's map.
pub autonomous_is_union :
    (from to : Status)
    → includes to (autonomous_task_transitions from)
      ≡ (includes to (agent_task_transitions from) || includes to (human_task_transitions from))
unfolding autonomous_task_transitions agent_task_transitions human_task_transitions
autonomous_is_union from to = ground arith

-- None of the four maps allows a move from a status to itself.
pub moves_change_status :
    (from to : Status)
    → (includes to (agent_task_transitions from)
        || includes to (human_task_transitions from)
        || includes to (assignee_task_transitions from)
        || includes to (autonomous_task_transitions from))
      ≡ true
    → from ≢ to
unfolding agent_task_transitions human_task_transitions assignee_task_transitions
    autonomous_task_transitions
moves_change_status from to h = ground arith
