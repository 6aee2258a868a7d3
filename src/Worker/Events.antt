-- ===== src/Worker/Events.antt =====
-- `process`, `applyPullRequest`, `applyWorkflowRun`, `classify` and `maybeRetry` of
-- apps/worker/src/queues/github-webhook/github-webhook.processor.ts.
use specbook.Base.{
  ℕ, String, Bool, false, Option, none, some, List, [], ◌∷◌, ◌++◌, map, filter, elem, length,
  set_where, not, is_some, is_none, is_empty, is_given, is_truthy, is_text, or_else, coalesce,
  same_text, ◌==◌, ◌&&◌, ◌||◌, if◌then◌else◌,
}
use specbook.Rows.{
  Task, Project, Organization, CiFailureKind, retryable, open_, merged, passing, failing, approved,
  done,
}
use specbook.Protocol.{
  same_status, same_pr_state, same_ci_state, is_ci_state, same_kind, grants_auto_merge,
}
use specbook.Action.{Action, pure, gets, modify, when, ◌>>=◌, ◌>>◌}
use specbook.TaskRepository.{update_where}
use specbook.Server.CiClassify.{CiClassification, classify_ci_failure}
use specbook.Worker.{
  Job, PullRequestEvent, WorkflowRunEvent, GithubWebhookJobPayload, pull_request, workflow_run,
}
use specbook.Worker.Projects.{
  ProjectRow, project_ids, installation_of, repo_of, organization_of, projects_of_event,
}
use specbook.Worker.Progress.{auto_progress, has_no_rows, is_waiting}
use specbook.Worker.Deploy.{auto_deploy}

abbrev pub ids_of : List Task → List ℕ
ids_of rows = map (λ t. t.id) rows

abbrev pub matches_pr : List ℕ → PullRequestEvent → Task → Bool
matches_pr projects e t =
    elem t.project_id projects && (is_text t.branch e.head_branch || is_text t.pr_url e.pr_url)

-- `event.prUrl || null`
abbrev given_or_null : String → Option String
given_or_null s = if is_empty s then none else some s

unfoldable pub pr_patch : ℕ → PullRequestEvent → Task → Task
pr_patch now e t = record t {
  pr_state = some e.pr_state;
  pr_number = some e.pr_number;
  pr_synced_at = some now;
  pr_url = coalesce t.pr_url (given_or_null e.pr_url);
}

abbrev pub is_approved_of : List ℕ → Task → Bool
is_approved_of ids t = elem t.id ids && same_status t.status approved

unfoldable pub completed_patch : ℕ → Task → Task
completed_patch now t = record t { status = done; status_changed_at = some now }

-- `applyPullRequest`
unfoldable pub apply_pull_request : Job → List ProjectRow → PullRequestEvent → Action ℕ
apply_pull_request job projects e = do
  rows ← update_where job.now (λ db t. matches_pr (project_ids projects) e t) (pr_patch job.now e)
  when (same_pr_state e.pr_state merged && not (has_no_rows rows)) (do
    completed ←
        update_where job.now (λ db t. is_approved_of (ids_of rows) t) (completed_patch job.now)
    pure tt)
  when (same_pr_state e.pr_state merged) (auto_deploy job projects e.base_branch)
  when (same_pr_state e.pr_state open_ && not (has_no_rows rows))
      (auto_progress job e.installation_id e.repo_full_name projects (ids_of rows))
  pure (length rows)

-- `classify`
unfoldable pub classify : Job → WorkflowRunEvent → Option CiClassification
classify job e = classify_ci_failure (record {
  run_conclusion = or_else e.run_conclusion "failure";
  jobs =
      if is_truthy e.run_id && job.github_app.enabled
      then job.github_app.list_workflow_jobs e.installation_id e.repo_full_name (or_else e.run_id 0)
      else [];
})

abbrev pub is_failing : WorkflowRunEvent → Bool
is_failing e = same_ci_state e.ci_state failing

abbrev pub is_passing : WorkflowRunEvent → Bool
is_passing e = same_ci_state e.ci_state passing

unfoldable pub classification_of : Job → WorkflowRunEvent → Option CiClassification
unfolding classify
classification_of job e = if is_failing e then classify job e else none

abbrev pub kind_of : Option CiClassification → Option CiFailureKind
kind_of none = none
kind_of (some c) = some c.kind

abbrev pub pointer_of : Option CiClassification → Option String
pointer_of none = none
pointer_of (some c) = some c.pointer

abbrev pub is_retryable : Option CiClassification → Bool
is_retryable none = false
is_retryable (some c) = same_kind c.kind retryable

unfoldable pub update_projects : (Project → Bool) → (Project → Project) → Action (Unit {0})
unfolding modify
update_projects p f = modify λ db. record db { projects = set_where p f db.projects }

unfoldable pub paused_patch : ℕ → Option CiClassification → Project → Project
paused_patch now c p = record p {
  auto_paused_at = some now;
  auto_pause_kind = kind_of c;
  auto_pause_pointer = pointer_of c;
}

unfoldable pub resumed_patch : Project → Project
resumed_patch p = record p {
  auto_paused_at = none;
  auto_pause_kind = none;
  auto_pause_pointer = none;
}

-- The tasks that the pause has held back.
abbrev pub is_parked : ℕ → Task → Bool
is_parked project_id t =
    t.project_id == project_id && is_waiting t && is_ci_state t.ci_state passing

unfoldable pub resume_project : Job → WorkflowRunEvent → ProjectRow → Action ProjectRow
resume_project job e p = do
  update_projects (λ q. q.id == p.id) resumed_patch
  parked ← gets (λ db. filter (is_parked p.id) db.tasks)
  when (not (has_no_rows parked)) (
      auto_progress job e.installation_id e.repo_full_name (record p { auto_paused_at = none } ∷ [])
        (ids_of parked))
  pure (record p { auto_paused_at = none })

unfoldable pub pause_project : Job → Option CiClassification → ProjectRow → Action ProjectRow
pause_project job c p = do
  update_projects (λ q. q.id == p.id && is_none q.auto_paused_at) (paused_patch job.now c)
  pure (record p { auto_paused_at = some job.now })

-- One round of the circuit breaker: the project as the rest of the job sees it.
unfoldable pub break_circuit :
    Job → WorkflowRunEvent → Option CiClassification → ProjectRow → Action ProjectRow
unfolding pause_project resume_project
break_circuit job e c p =
    if not (grants_auto_merge p.mode) || not (is_text (some e.head_branch) p.default_branch)
    then pure p
    else if is_failing e && is_retryable c
    then pure p
    else if is_failing e && is_none p.auto_paused_at
    then pause_project job c p
    else if is_passing e && is_some p.auto_paused_at
    then resume_project job e p
    else pure p

unfoldable pub break_circuits :
    Job → WorkflowRunEvent → Option CiClassification → List ProjectRow → Action (List ProjectRow)
unfolding break_circuit
break_circuits job e c [] = pure []
break_circuits job e c (p ∷ rest) = do
  q ← break_circuit job e c p
  qs ← break_circuits job e c rest
  pure (q ∷ qs)

abbrev pub has_number : List ℕ → Task → Bool
has_number numbers t = elem (or_else t.pr_number 0) numbers && is_some t.pr_number

abbrev pub matches_run : List ℕ → WorkflowRunEvent → Task → Bool
matches_run projects e t =
    elem t.project_id projects && (is_text t.branch e.head_branch || has_number e.pr_numbers t)

unfoldable pub ci_patch : ℕ → WorkflowRunEvent → Option CiClassification → Task → Task
ci_patch now e c t = record t {
  ci_state = some e.ci_state;
  pr_synced_at = some now;
  ci_failure_kind = if is_failing e then kind_of c else none;
}

unfoldable pub ask_rerun : Job → WorkflowRunEvent → Action (Unit {0})
unfolding modify
ask_rerun job e = modify λ db. record db {
  reruns =
      db.reruns
      ++ record {
        installation_id = e.installation_id;
        repo_full_name = e.repo_full_name;
        run_id = or_else e.run_id 0;
      }
        ∷ [];
}

abbrev pub is_spent : WorkflowRunEvent → Task → Bool
is_spent e t = same_text t.ci_retried_sha e.head_sha

unfoldable pub escalated_patch : Task → Task
escalated_patch t = record t { ci_failure_kind = none }

unfoldable pub retried_patch : WorkflowRunEvent → Task → Task
retried_patch e t = record t { ci_retried_sha = e.head_sha }

-- `maybeRetry`
unfoldable pub maybe_retry : Job → WorkflowRunEvent → List Task → Action (Unit {0})
unfolding ask_rerun
maybe_retry job e rows =
    let spent = filter (is_spent e) rows in
    if not (has_no_rows spent)
    then (do _ ← update_where job.now (λ db t. elem t.id (ids_of spent)) escalated_patch; pure tt)
    else (do
      _ ← update_where job.now (λ db t. elem t.id (ids_of rows)) (retried_patch e)
      ask_rerun job e)

-- The condition of `maybeRetry`.
unfoldable pub may_retry : Job → WorkflowRunEvent → Option CiClassification → List Task → Bool
may_retry job e c rows =
    is_failing e
    && is_retryable c
    && not (has_no_rows rows)
    && is_truthy e.run_id
    && is_given e.head_sha
    && job.github_app.enabled

-- `applyWorkflowRun`
unfoldable pub apply_workflow_run : Job → List ProjectRow → WorkflowRunEvent → Action ℕ
unfolding classification_of break_circuits may_retry maybe_retry
apply_workflow_run job projects e = do
  let c = classification_of job e
  seen ← break_circuits job e c projects
  rows ←
      update_where job.now (λ db t. matches_run (project_ids projects) e t) (ci_patch job.now e c)
  when (may_retry job e c rows) (maybe_retry job e rows)
  when (is_passing e && not (has_no_rows rows))
      (auto_progress job e.installation_id e.repo_full_name seen (ids_of rows))
  pure (length rows)

unfoldable pub apply_event : Job → List ProjectRow → GithubWebhookJobPayload → Action ℕ
unfolding apply_pull_request apply_workflow_run
apply_event job projects (pull_request e) = apply_pull_request job projects e
apply_event job projects (workflow_run e) = apply_workflow_run job projects e

-- `process` once the organization is looked up.
unfoldable pub apply_for : Job → GithubWebhookJobPayload → Option Organization → Action ℕ
unfolding projects_of_event apply_event
apply_for job e none = pure 0
apply_for job e (some org) = do
  projects ← gets (λ db. projects_of_event db org.id (repo_of e))
  if has_no_rows projects then pure 0 else apply_event job projects e

-- `process`
unfoldable pub process : Job → GithubWebhookJobPayload → Action ℕ
unfolding organization_of apply_for
process job e = do
  found ← gets (λ db. organization_of db (installation_of e))
  apply_for job e found
