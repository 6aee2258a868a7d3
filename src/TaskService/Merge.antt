-- ===== src/TaskService/Merge.antt =====
-- The writes of `finalizeMerged`, `merge`, `syncPr`, `maybeOpenReviewPr` and `maybeAutoProgress` of
-- apps/api/src/tasks/task.service.ts.
use specbook.Base.{
  ℕ, String, Bool, true, false, Option, none, some, [], ◌∷◌, not, ◌||◌, is_some, concat, decimal,
  if◌then◌else◌,
}
use specbook.Rows.{
  Task, TaskComment, Project, needs_review, approved, done, PrState, open_, merged, closed, passing,
  Actor, user, CommentKind,
}
use specbook.Protocol.{
  same_status, is_pr_state, is_ci_state, grants_auto_merge, grants_auto_approve,
}
use specbook.Result.{not_found}
use specbook.Action.{Db, Action, pure, gets, check, or_raise, ◌>>=◌, ◌>>◌}
use specbook.Github.{PullRequest}
use specbook.Session.{Session}
use specbook.ProjectRepository.{find_project}
use specbook.TaskRepository.{update, cas_update_status, create_comment}
use specbook.TaskService.PrPlan.{
  ReviewPr, leave, finalize, record_open, plan_merge, plan_sync, plan_review_pr,
}

-- The change of `finalizeMerged`.
unfoldable pub merged_patch : Session → Option ℕ → Task → Task
merged_patch s pr_number t = record t {
  status = done;
  pr_state = some merged;
  pr_number = pr_number;
  pr_synced_at = some s.now;
  status_changed_by = some s.active_user.user_id;
  status_changed_at = some s.now;
}

-- `finalizeMerged`
unfoldable pub finalize_merged : Session → ℕ → Option ℕ → Action Task
finalize_merged s id pr_number = do
  row ← update s.now id s.active_user.org_id (some (merged_patch s pr_number))
  or_raise not_found row

-- `merge`
unfoldable pub merge : Session → ℕ → Action Task
merge s id = do pr_number ← check (plan_merge s id); finalize_merged s id pr_number

-- A comment that the service writes for the session's user.
abbrev pub new_comment : Session → ℕ → Actor → CommentKind → String → TaskComment
new_comment s task_id actor kind body = record {
  task_id = task_id;
  author_id = s.active_user.user_id;
  author_type = actor;
  kind = kind;
  body = body;
  acked_at = none;
  created_at = s.now;
}

abbrev synced_patch : Session → PullRequest → Task → Task
synced_patch s pr t = record t {
  pr_state = some pr.state;
  pr_number = some pr.number;
  pr_synced_at = some s.now;
}

-- `syncPr` after its checks, by the state of the pull request.
unfoldable pub apply_sync : Session → ℕ → PullRequest → PrState → Action Task
apply_sync s id pr merged = do
  row ← finalize_merged s id (some pr.number)
  create_comment (
      new_comment s id user CommentKind.comment
        (concat ("Synced: PR #" ∷ decimal pr.number ∷ " is merged — task marked done." ∷ [])))
  pure row
apply_sync s id pr open_ = do
  row ← update s.now id s.active_user.org_id (some (synced_patch s pr))
  or_raise not_found row
apply_sync s id pr closed = do
  row ← update s.now id s.active_user.org_id (some (synced_patch s pr))
  updated ← or_raise not_found row
  create_comment (
      new_comment s id user CommentKind.comment (
        concat (
          "Synced: PR #"
          ∷ decimal pr.number
          ∷ " was closed without merging — not completed. Reopen it or link a new PR."
          ∷ [])))
  pure updated

-- `syncPr`
unfoldable pub sync_pr : Session → ℕ → Action Task
sync_pr s id = do pr ← check (plan_sync s id); apply_sync s id pr pr.state

-- The writes of `maybeOpenReviewPr`.
unfoldable pub apply_review_pr : Session → ℕ → ReviewPr → Action (Unit {0})
apply_review_pr s id leave = pure tt
apply_review_pr s id (finalize n) = do _ ← finalize_merged s id (some n); pure tt
apply_review_pr s id (record_open n url) = do
  row ← update s.now id s.active_user.org_id (
      some (λ t. record t {
        pr_number = some n;
        pr_url = some url;
        pr_state = some open_;
        pr_synced_at = some s.now;
      }))
  _ ← or_raise not_found row
  pure tt

-- `maybeOpenReviewPr`
unfoldable pub maybe_open_review_pr : Session → Task → Action (Unit {0})
maybe_open_review_pr s current = do
  step ← check (plan_review_pr s current)
  apply_review_pr s current.id step

-- What `maybeAutoProgress` does with a task.
pub data AutoStep : Type 0 where
  hold : AutoStep
  approve_first : AutoStep
  go_on : AutoStep

-- `!proj || !grantsAutoMerge(proj.mode) || proj.autoPausedAt`
unfoldable pub holds_auto : Option Project → Bool
holds_auto none = true
holds_auto (some p) = not (grants_auto_merge p.mode) || is_some p.auto_paused_at

abbrev approves : Option Project → Bool
approves none = false
approves (some p) = grants_auto_approve p.mode

-- `maybeAutoProgress` before its first write.
unfoldable pub auto_step : Session → Task → Db → AutoStep
unfolding holds_auto
auto_step s current db =
    let proj = find_project db current.project_id s.active_user.org_id none in
    if current.is_human_task
      || not (is_ci_state current.ci_state passing)
      || is_pr_state current.pr_state merged
      || holds_auto proj
    then hold
    else if same_status current.status needs_review
    then (if approves proj then approve_first else hold)
    else if same_status current.status approved
    then go_on
    else hold

-- A task that carries an assumption flag is not merged.
unfoldable pub merge_unflagged : Session → Task → Action (Unit {0})
merge_unflagged s current =
    if is_some current.assumption_flag then pure tt else (do _ ← merge s current.id; pure tt)

unfoldable pub approved_patch : ℕ → Task → Task
approved_patch now t = record t { status = approved; status_changed_at = some now }

unfoldable pub after_approval : Session → Task → Option Task → Action (Unit {0})
after_approval s current none = pure tt
after_approval s current (some row) = merge_unflagged s current

unfoldable pub run_auto_step : Session → Task → AutoStep → Action (Unit {0})
run_auto_step s current hold = pure tt
run_auto_step s current approve_first = do
  row ← cas_update_status s.now current.id s.active_user.org_id needs_review (approved_patch s.now)
  after_approval s current row
run_auto_step s current go_on = merge_unflagged s current

-- `maybeAutoProgress`
unfoldable pub maybe_auto_progress : Session → Task → Action (Unit {0})
maybe_auto_progress s current = do step ← gets (auto_step s current); run_auto_step s current step
