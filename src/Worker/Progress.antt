-- ===== src/Worker/Progress.antt =====
-- `autoProgress` and `finalizeMerged` of
-- apps/worker/src/queues/github-webhook/github-webhook.processor.ts: the automation of the worker.
use specbook.Base.{
  ℕ, String, Bool, true, false, none, some, List, [], ◌∷◌, filter, find?, elem, not, is_some,
  is_empty, is_truthy, or_else, ◌==◌, ◌&&◌, ◌||◌, if◌then◌else◌,
}
use specbook.Rows.{Task, needs_review, approved, done, merged, passing, auto}
use specbook.Protocol.{
  same_status, same_mode, includes, is_pr_state, is_ci_state, grants_auto_merge,
}
use specbook.Action.{Action, pure, gets, check, attempt, for_each, ◌>>=◌}
use specbook.TaskRepository.{update_where}
use specbook.TaskService.Repo.{RepoContext}
use specbook.TaskService.PrPlan.{PrTarget, merged_already, to_merge, resolve_pr}
use specbook.Worker.{Job}
use specbook.Worker.Projects.{ProjectRow, project_ids}

abbrev pub has_no_rows {ℓ} : {A : Type ℓ} → List A → Bool
has_no_rows [] = true
has_no_rows (a ∷ rest) = false

-- `['needs_review', 'approved']`, in which a task waits for its merge.
abbrev pub is_waiting : Task → Bool
is_waiting t = includes t.status (needs_review ∷ approved ∷ [])

unfoldable pub worker_merged_patch : ℕ → ℕ → Task → Task
worker_merged_patch now pr_number t = record t {
  status = done;
  pr_state = some merged;
  pr_number = some pr_number;
  pr_synced_at = some now;
  status_changed_at = some now;
}

abbrev pub is_waiting_row : ℕ → Task → Bool
is_waiting_row id t = t.id == id && is_waiting t

-- `finalizeMerged`
unfoldable pub worker_finalize_merged : Job → ℕ → ℕ → Action (Unit {0})
worker_finalize_merged job id pr_number = do
  rows ← update_where job.now (λ db t. is_waiting_row id t) (worker_merged_patch job.now pr_number)
  pure tt

unfoldable pub worker_approved_patch : ℕ → Task → Task
worker_approved_patch now t = record t { status = approved; status_changed_at = some now }

abbrev pub is_review_row : ℕ → Task → Bool
is_review_row id t = t.id == id && same_status t.status needs_review

-- The compare-and-swap of the automatic approval.
unfoldable pub worker_approve : Job → ℕ → Action (List Task)
worker_approve job id =
    update_where job.now (λ db t. is_review_row id t) (worker_approved_patch job.now)

-- Merges what `resolve_pr` has found. A task without a branch or a pull request is skipped, and so
-- is a merge that GitHub refuses.
unfoldable pub merge_resolved : Job → RepoContext → ℕ → PrTarget → Action (Unit {0})
merge_resolved job ctx id (merged_already n) = worker_finalize_merged job id n
merge_resolved job ctx id (to_merge pr_number) = if not (is_truthy pr_number) then pure tt else (do
  let n = or_else pr_number 0
  is_done ← check (λ db. job.github_app.merge_pull_request ctx.installation_id ctx.repo_full_name n)
  if is_done then worker_finalize_merged job id n else pure tt)

-- `proj.defaultBranch || 'main'`
abbrev pub context_of : ℕ → String → ProjectRow → RepoContext
context_of installation_id repo proj = record {
  installation_id = installation_id;
  repo_full_name = repo;
  default_branch = if is_empty proj.default_branch then "main" else proj.default_branch;
}

-- The merge of a task that is approved. A flagged assumption holds it.
unfoldable pub merge_step : Job → RepoContext → Task → Action (Unit {0})
unfolding merge_resolved
merge_step job ctx t = if is_some t.assumption_flag then pure tt else (do
  target ← check (λ db. resolve_pr job.github_app ctx t)
  merge_resolved job ctx t.id target)

-- The body of the `try`. An approval that finds no row has lost a race.
unfoldable pub approve_and_merge : Job → RepoContext → Task → Action (Unit {0})
unfolding merge_step
approve_and_merge job ctx t =
    if same_status t.status needs_review
    then (do
      rows ← worker_approve job t.id
      if has_no_rows rows then pure tt else merge_step job ctx t)
    else merge_step job ctx t

-- The tests before the `try`: `continue` for a paused project, a review that is the human's, and a
-- pull request that is merged.
unfoldable pub is_held : ProjectRow → Task → Bool
is_held proj t =
    is_some proj.auto_paused_at
    || (same_status t.status needs_review && not (same_mode proj.mode auto))
    || is_pr_state t.pr_state merged

-- One round of the loop over the candidates.
unfoldable pub progress_task : Job → ℕ → String → List ProjectRow → Task → Action (Unit {0})
unfolding is_held
progress_task job installation_id repo projects t =
    elim (find? (λ (p : ProjectRow). p.id == t.project_id) projects) [
      | none ↦ pure tt
      | some proj ↦
          if is_held proj t
          then pure tt
          else attempt (approve_and_merge job (context_of installation_id repo proj) t)
    ]

abbrev pub is_candidate : List ProjectRow → List ℕ → Task → Bool
is_candidate projects ids t =
    elem t.id ids
    && elem t.project_id (project_ids projects)
    && is_waiting t
    && is_ci_state t.ci_state passing
    && not t.is_human_task

abbrev pub auto_projects : List ProjectRow → List ProjectRow
auto_projects projects = filter (λ p. grants_auto_merge p.mode) projects

-- `autoProgress`
unfoldable pub auto_progress : Job → ℕ → String → List ProjectRow → List ℕ → Action (Unit {0})
unfolding progress_task
auto_progress job installation_id repo projects ids =
    let autos = auto_projects projects in
    if has_no_rows autos || not job.github_app.enabled then pure tt else (do
      candidates ← gets (λ db. filter (is_candidate autos ids) db.tasks)
      for_each candidates (progress_task job installation_id repo autos))
