-- ===== src/TaskService/Transition.antt =====
-- `transition` of apps/api/src/tasks/task.service.ts from its compare-and-swap on, with
-- `detachCancelledDependents` and the notification of the members.
use specbook.Base.{
  ℕ, String, Option, [], ◌∷◌, map, head?, filter, not, is_some, ◌==◌, ◌&&◌, ◌||◌, is_given, or_else,
  concat, if◌then◌else◌,
}
use specbook.Rows.{
  Task, TaskComment, Status, ready, in_progress, blocked, needs_review, approved, cancelled, Actor,
  CommentKind, question, answer, Notification, court, info, warning,
}
use specbook.Protocol.{same_status}
use specbook.Result.{Error, already_claimed, status_conflict, database_error}
use specbook.Action.{
  Action, pure, gets, check, or_raise, raise_if, ◌>>=◌, ◌>>◌, attempt, when, for_each,
}
use specbook.Session.{Session, comments_on, reads_dependents, detaches}
use specbook.TaskRepository.{
  cas_update_status, create_comment, find_non_terminal_dependents, detach_dependents,
  find_org_member_ids, create_notification,
}
use specbook.TaskService.Plan.{
  TransitionRequest, TransitionPlan, plan_transition, status_patch, is_agent_actor,
}
use specbook.TaskService.Merge.{new_comment, maybe_open_review_pr, maybe_auto_progress}

-- `createComment` where the database may fail.
unfoldable pub late_comment : Session → TaskComment → Action (Unit {0})
late_comment s k = do raise_if (s.fails (comments_on k.task_id)) database_error; create_comment k

-- What a dependent is told.
unfoldable pub tell_dependent : Session → Actor → Task → Task → Action (Unit {0})
unfolding late_comment
tell_dependent s actor gone d = late_comment s (
    new_comment s d.id actor CommentKind.comment (
      concat (
        "Dependency \"" ∷ gone.title
        ∷ "\" was cancelled — the dependency was removed automatically." ∷ [])))

-- `detachCancelledDependents`. The statement that detaches is made only where there is a dependent.
unfoldable pub detach_cancelled_dependents : Session → Actor → Task → Action (Unit {0})
unfolding tell_dependent
detach_cancelled_dependents s actor gone = do
  raise_if (s.fails (reads_dependents gone.id)) database_error
  dependents ← gets (λ db. find_non_terminal_dependents db gone.id s.active_user.org_id)
  raise_if (is_some (head? dependents) && s.fails (detaches gone.id)) database_error
  detach_dependents gone.id (map (λ t. t.id) dependents)
  for_each dependents (tell_dependent s actor gone)

abbrev court_notification : Session → Task → Status → Option String → ℕ → Notification
court_notification s updated to comment member_id = record {
  user_id = member_id;
  org_id = s.active_user.org_id;
  type = if same_status to blocked then warning else info;
  title =
      concat ((if same_status to blocked then "Question: " else "Review: ") ∷ updated.title ∷ []);
  message = comment;
  payload = court updated.id to;
}

-- The bell: every other member of the organization learns that the task waits for a human.
unfoldable pub notify_court : Session → Task → Status → Option String → Action (Unit {0})
notify_court s updated to comment = do
  members ← gets (λ db. find_org_member_ids db s.active_user.org_id)
  for_each (filter (λ m. not (m == s.active_user.user_id)) members)
      λ m. create_notification (court_notification s updated to comment m)

-- Entering blocked is the question, leaving it the answer.
abbrev pub comment_kind : Status → Status → CommentKind
comment_kind from to =
    if same_status to blocked
    then question
    else if same_status from blocked
    then answer
    else CommentKind.comment

-- What follows the compare-and-swap, which stays written where this throws.
unfoldable pub after_swap : Session → Actor → Status → TransitionPlan → Task → Action Task
unfolding late_comment
after_swap s actor to plan updated = do
  when (is_given plan.comment) (
      late_comment s (
        new_comment s plan.current.id actor (comment_kind plan.current.status to)
          (or_else plan.comment "")))
  when (same_status to cancelled) (detach_cancelled_dependents s actor updated)
  when (same_status to blocked || same_status to needs_review)
      (attempt (notify_court s updated to plan.comment))
  when (same_status to needs_review && is_agent_actor actor)
      (attempt (maybe_open_review_pr s updated))
  when
      ((same_status to needs_review && is_agent_actor actor)
        || (same_status to approved && not (is_agent_actor actor)))
      (attempt (maybe_auto_progress s updated))
  pure updated

abbrev pub lost_race : Status → Status → Error
lost_race from to =
    if same_status from ready && same_status to in_progress
    then already_claimed
    else status_conflict

-- The writes of `transition`: the swap holds the row to the status that was checked.
unfoldable pub commit_transition : Session → Actor → Status → TransitionPlan → Action Task
commit_transition s actor to plan = do
  row ←
      cas_update_status s.now plan.current.id s.active_user.org_id plan.current.status
        (status_patch s plan.current to)
  updated ← or_raise (lost_race plan.current.status to) row
  after_swap s actor to plan updated

-- `transition`
unfoldable pub transition : Session → Actor → TransitionRequest → Action Task
transition s actor dto = do
  plan ← check (plan_transition s actor dto)
  commit_transition s actor dto.to plan
