-- ===== src/Worker/Rules.antt =====
-- The webhook worker keeps a property of the tables if the statements do that it is made of: the
-- statements as an interface, which each property fills once.
use specbook.Base.{
  ℕ, ◌≡◌, Bool, true, false, none, Option, List, Memᴰ, All, elem, is_none, ◌==◌, ◌&&◌,
}
use specbook.Rows.{Task, needs_review, passing, auto, merged, open_}
use specbook.Protocol.{same_status, same_pr_state, same_mode, is_ci_state, grants_auto_merge}
use specbook.Action.{Db}
use specbook.Action.Keeps.{Keeps}
use specbook.TaskRepository.{update_where}
use specbook.Server.CiClassify.{CiClassification}
use specbook.Worker.{
  Job, PullRequestEvent, WorkflowRunEvent, GithubWebhookJobPayload, pull_request, workflow_run,
}
use specbook.Worker.Projects.{ProjectRow, project_ids, installation_of, repo_of}
use specbook.TaskService.Repo.{RepoContext}
use specbook.TaskService.PrPlan.Landed.{Landed}
use specbook.Worker.Progress.{is_waiting, worker_finalize_merged, worker_approve}
use specbook.Worker.Deploy.{queued_deployment, insert_deployment, enqueue_deploy}
use specbook.Worker.Events.{
  is_passing, matches_pr, pr_patch, is_approved_of, completed_patch, matches_run, ci_patch,
  update_projects, resumed_patch, paused_patch, escalated_patch, retried_patch, ask_rerun,
}

-- The events after which the automation runs: a pull request that is open, and a green run.
abbrev pub progresses : GithubWebhookJobPayload → Bool
progresses (pull_request e) = same_pr_state e.pr_state open_
progresses (workflow_run e) = is_passing e

-- A task that the automation takes up, with the project that lets it.
pub record Candidate (event : GithubWebhookJobPayload) (projects : List ProjectRow) (t : Task)
    : Type 0 where
  pub goes : progresses event ≡ true
  pub project : ProjectRow
  pub listed : Memᴰ project projects
  pub owns : project.id ≡ t.project_id
  pub grants : grants_auto_merge project.mode ≡ true
  pub green : is_ci_state t.ci_state passing ≡ true
  pub by_agents : t.is_human_task ≡ false
  pub waits : is_waiting t ≡ true
  pub review : same_status t.status needs_review ≡ true → same_mode project.mode auto ≡ true

-- What was established of a task before it is recorded as merged: nothing of it waits for a human,
-- and its pull request has landed, by GitHub's answer in the installation and the repository of the
-- event.
pub record HasLanded (job : Job) (event : GithubWebhookJobPayload) (t : Task) (n : ℕ) : Type 0 where
  pub unflagged : t.assumption_flag ≡ none
  pub ctx : RepoContext
  pub at_installation : ctx.installation_id ≡ installation_of event
  pub in_repo : ctx.repo_full_name ≡ repo_of event
  pub landed : Landed job.github_app ctx t.pr_number t.branch n

-- What is known of a task when it is read is kept as a fact of its identifier, which stays true
-- while the job writes.
pub record WorkerRules (P : Db → Type 0) (job : Job) (event : GithubWebhookJobPayload)
    (projects : List ProjectRow) : Type 1 where
  pub Known : ℕ → Type 0
  pub Approves : ℕ → Type 0
  pub Finishes : ℕ → ℕ → Type 0
  pub Matched : ℕ → Type 0
  pub known :
      (db : Db) (t : Task)
      → P db
      → Memᴰ t db.tasks
      → elem t.project_id (project_ids projects) ≡ true
      → Known t.id
  pub approves :
      (db : Db) (t : Task)
      → P db
      → Memᴰ t db.tasks
      → Candidate event projects t
      → same_status t.status needs_review ≡ true
      → Approves t.id
  pub finishes :
      (db : Db) (t : Task)
      → P db
      → Memᴰ t db.tasks
      → Candidate event projects t
      → (n : ℕ) → HasLanded job event t n
      → Finishes t.id n
  pub matched :
      (db : Db) (t : Task) (e : PullRequestEvent)
      → P db
      → Memᴰ t db.tasks
      → event ≡ pull_request e
      → matches_pr (project_ids projects) e t ≡ true
      → Matched t.id
  pub record_pr :
      (e : PullRequestEvent)
      → event ≡ pull_request e
      → Keeps P (
          update_where job.now (λ db t. matches_pr (project_ids projects) e t) (pr_patch job.now e))
  pub complete :
      (e : PullRequestEvent) (ids : List ℕ)
      → event ≡ pull_request e
      → e.pr_state ≡ merged
      → All Matched ids
      → Keeps P (update_where job.now (λ db t. is_approved_of ids t) (completed_patch job.now))
  pub record_ci :
      (e : WorkflowRunEvent) (c : Option CiClassification)
      → event ≡ workflow_run e
      → Keeps P (
          update_where job.now
            (λ db t. matches_run (project_ids projects) e t)
            (ci_patch job.now e c))
  pub escalate :
      (ids : List ℕ)
      → All Known ids
      → Keeps P (update_where job.now (λ db t. elem t.id ids) escalated_patch)
  pub mark_retried :
      (e : WorkflowRunEvent) (ids : List ℕ)
      → All Known ids
      → Keeps P (update_where job.now (λ db t. elem t.id ids) (retried_patch e))
  pub approve : (id : ℕ) → Approves id → Keeps P (worker_approve job id)
  pub finish : (id n : ℕ) → Finishes id n → Keeps P (worker_finalize_merged job id n)
  pub resume :
      (p : ProjectRow)
      → Memᴰ p projects
      → Keeps P (update_projects (λ q. q.id == p.id) resumed_patch)
  pub pause :
      (p : ProjectRow) (c : Option CiClassification)
      → Memᴰ p projects
      → Keeps P
          (update_projects (λ q. q.id == p.id && is_none q.auto_paused_at) (paused_patch job.now c))
  pub add_deployment :
      (p : ProjectRow) (environment_id : ℕ)
      → Keeps P (insert_deployment (queued_deployment job p environment_id))
  pub enqueue : (id : ℕ) → Keeps P (enqueue_deploy job id)
  pub rerun : (e : WorkflowRunEvent) → Keeps P (ask_rerun job e)
