-- ===== src/TaskService/Plan.antt =====
-- `transition` of apps/api/src/tasks/task.service.ts up to its first write: the transition map of
-- the actor, the gates, and the change of the row.
use specbook.Base.{
  ℕ, String, Bool, true, false, Option, none, some, List, is_none, not, ◌&&◌, trim, has_text,
  is_given, holds, if◌then◌else◌,
}
use specbook.Rows.{
  Task, Actor, user, agent, Status, draft, ready, in_progress, blocked, needs_review,
  changes_requested, ActiveUser,
}
use specbook.Protocol.{
  same_status, includes, agent_task_transitions, human_task_transitions, assignee_task_transitions,
  autonomous_task_transitions, grants_agent_dispatch,
}
use specbook.Result.{
  Result, ok, ◌>>=◌, ◌>>◌, fail_if, invalid_transition, dispatch_gate, review_gate, unacked_notes,
  human_review_gate, question_required, feedback_required,
}
use specbook.Action.{Db}
use specbook.Session.{Session}
use specbook.ProjectRepository.{find_project}
use specbook.TaskRepository.{has_unacked_notes, is_empty_list}
use specbook.TaskService.Access.{require_task}

pub record TransitionRequest : Type 0 where
  pub id : ℕ
  pub to : Status
  pub comment : Option String

-- `projectAllowsAgentDispatch`
unfoldable pub project_allows_agent_dispatch : Db → ℕ → ℕ → Bool
project_allows_agent_dispatch db project_id org_id = elim (find_project db project_id org_id none) [
  | none ↦ false
  | some proj ↦ grants_agent_dispatch proj.mode
]

abbrev pub is_agent_actor : Actor → Bool
is_agent_actor agent = true
is_agent_actor user = false

-- `isAssigneeExecutor`
abbrev pub is_assignee_executor : Actor → Task → ActiveUser → Bool
is_assignee_executor actor current u =
    not (is_agent_actor actor) && current.is_human_task && holds current.assignee u.user_id

-- The transition map that the actor is held to.
unfoldable pub moves_of : Actor → Bool → Bool → Status → List Status
moves_of agent dispatches executor from =
    if dispatches then autonomous_task_transitions from else agent_task_transitions from
moves_of user dispatches executor from =
    if executor then assignee_task_transitions from else human_task_transitions from

-- `dto.comment?.trim()`
unfoldable pub trimmed : Option String → Option String
trimmed none = none
trimmed (some s) = some (trim s)

-- Dispatch gate: context and a definition of done.
unfoldable pub passes_dispatch_gate : Task → Bool
passes_dispatch_gate t = has_text t.context && not (is_empty_list t.acceptance_criteria)

-- Review gate of an agent: a summary, the branch and the PR link.
unfoldable pub passes_review_gate : Option String → Task → Bool
passes_review_gate comment t = is_given comment && has_text t.branch && has_text t.pr_url

-- The gates, in the order of the source.
unfoldable pub gates : Db → Actor → Bool → Task → Status → Option String → Result (Unit {0})
gates db actor executor current to comment = do
  fail_if
      (same_status to ready
        && same_status current.status draft
        && not (passes_dispatch_gate current))
      dispatch_gate
  fail_if
      (same_status to needs_review
        && is_agent_actor actor
        && not (passes_review_gate comment current))
      review_gate
  fail_if (same_status to needs_review && is_agent_actor actor && has_unacked_notes db current.id)
      unacked_notes
  fail_if (same_status to needs_review && executor && not (has_text current.pr_url))
      human_review_gate
  fail_if (same_status to blocked && not (is_given comment)) question_required
  fail_if (same_status to changes_requested && not (is_given comment)) feedback_required

-- `patch`: the new status; entering work claims a task that nobody holds, and queueing it again
-- releases the claim.
unfoldable pub status_patch : Session → Task → Status → Task → Task
status_patch s current to t =
    let moved = record t {
      status = to;
      status_changed_by = some s.active_user.user_id;
      status_changed_at = some s.now;
    } in
    let claimed = record moved {
      claimed_by = some s.active_user.user_id;
      claimed_at = some s.now;
    } in
    let entered =
      if same_status to in_progress && is_none current.claimed_by then claimed else moved in
    if same_status to ready
    then record entered { claimed_by = none; claimed_at = none }
    else entered

-- What `transition` has fixed before it writes.
pub record TransitionPlan : Type 0 where
  pub current : Task
  pub comment : Option String

unfoldable pub plan_transition : Session → Actor → TransitionRequest → Db → Result TransitionPlan
plan_transition s actor dto db = do
  current ← require_task s.active_user dto.id true db
  let executor = is_assignee_executor actor current s.active_user
  let dispatches = project_allows_agent_dispatch db current.project_id s.active_user.org_id
  fail_if (not (includes dto.to (moves_of actor dispatches executor current.status)))
      invalid_transition
  gates db actor executor current dto.to (trimmed dto.comment)
  ok (record { current = current; comment = trimmed dto.comment })
