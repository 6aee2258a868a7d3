-- ===== src/Worker/Policy.antt =====
-- What a webhook event may do to the status of a task, as a relation of one row to the same row
-- after the event.
use specbook.Base.{ℕ, ◌≡◌, ◌⊎◌, Bool, true, false, Option, none, some, List, Memᴰ}
use specbook.Rows.{Task, Status, needs_review, approved, done, merged, passing, auto}
use specbook.Protocol.{same_mode, is_ci_state, grants_auto_merge}
use specbook.TaskService.Repo.{RepoContext}
use specbook.TaskService.PrPlan.Landed.{Landed}
use specbook.Worker.{Job, PullRequestEvent, GithubWebhookJobPayload, pull_request, workflow_run}
use specbook.Worker.Projects.{ProjectRow, installation_of, repo_of}
use specbook.Worker.Events.{is_passing}
use specbook.Worker.Rules.{progresses}

abbrev pub is_green_run : GithubWebhookJobPayload → Bool
is_green_run (pull_request e) = false
is_green_run (workflow_run e) = is_passing e

module _ (job : Job) (event : GithubWebhookJobPayload) (projects : List ProjectRow)
    (old : Task) where
  -- The event is of the task's pull request: of its branch or of the link that it has, in a project
  -- of the event.
  pub record OfEvent (e : PullRequestEvent) : Type 0 where
    pub is_event : event ≡ pull_request e
    pub project : ProjectRow
    pub listed : Memᴰ project projects
    pub owns : project.id ≡ old.project_id
    pub linked : (old.branch ≡ some e.head_branch) ⊎ (old.pr_url ≡ some e.pr_url)

  -- The number that the task has for its pull request: the stored one, or the event's.
  pub data Numbered (number : Option ℕ) : Type 0 where
    as_stored : number ≡ old.pr_number → Numbered number
    by_event : (e : PullRequestEvent) → OfEvent e → number ≡ some e.pr_number → Numbered number

  -- What the worker must know before it records a task as merged: no assumption of it is flagged,
  -- and its pull request has landed in the installation and the repository of the event.
  pub record MergedOnGithub : Type 0 where
    pub unflagged : old.assumption_flag ≡ none
    pub number : ℕ
    pub stored : Option ℕ
    pub numbered : Numbered stored
    pub ctx : RepoContext
    pub at_installation : ctx.installation_id ≡ installation_of event
    pub in_repo : ctx.repo_full_name ≡ repo_of event
    pub landed : Landed job.github_app ctx stored old.branch number

  -- The checks of the task are green, before the event or by it.
  abbrev pub Green : Type 0
  Green = (is_ci_state old.ci_state passing ≡ true) ⊎ (is_green_run event ≡ true)

  -- The automation may take the task up.
  pub record Automatic : Type 0 where
    pub goes : progresses event ≡ true
    pub project : ProjectRow
    pub listed : Memᴰ project projects
    pub owns : project.id ≡ old.project_id
    pub grants : grants_auto_merge project.mode ≡ true
    pub by_agents : old.is_human_task ≡ false
    pub green : Green

  -- The moves of a task.
  pub data Move (new : Status) : Type 0 where
    stays : new ≡ old.status → Move new
    -- The pull request of an approved task was merged on GitHub, says the event.
    merged_there :
        old.status ≡ approved
        → new ≡ done
        → (e : PullRequestEvent) → OfEvent e
        → e.pr_state ≡ merged
        → Move new
    -- The worker merges an approved task.
    merged_here : old.status ≡ approved → new ≡ done → Automatic → MergedOnGithub → Move new
    -- The worker approves a task in review, and perhaps merges it.
    judged :
        old.status ≡ needs_review
        → (new ≡ approved) ⊎ ((new ≡ done) × MergedOnGithub)
        → (a : Automatic) → same_mode a.project.mode auto ≡ true
        → Move new

-- A row before the event and after it.
pub record Advanced (job : Job) (event : GithubWebhookJobPayload) (projects : List ProjectRow)
    (old new : Task) : Type 0 where
  pub same_id : new.id ≡ old.id
  pub same_project : new.project_id ≡ old.project_id
  pub same_worker : new.is_human_task ≡ old.is_human_task
  pub same_branch : new.branch ≡ old.branch
  pub same_flag : new.assumption_flag ≡ old.assumption_flag
  pub url : (new.pr_url ≡ old.pr_url) ⊎ ((e : PullRequestEvent) × OfEvent job event projects old e)
  pub number : Numbered job event projects old new.pr_number ⊎ (new.status ≡ done)
  pub green_after : is_ci_state new.ci_state passing ≡ true → Green job event projects old
  pub move : Move job event projects old new.status
