-- ===== src/Worker.antt =====
-- The webhook worker: apps/worker/src/queues/github-webhook/github-webhook.processor.ts and the
-- events of packages/server/src/modules/queues/github-webhook/github-webhook.types.ts.
pub mod Projects
pub mod Progress
pub mod Deploy
pub mod Events
pub mod Rules
pub mod Keeps
pub mod Valid
pub mod Apart
pub mod Isolation
pub mod Policy
pub mod Moves
pub mod Retry
pub mod Breaker
pub mod Collapse
use specbook.Base.{ℕ, String, Option, List}
use specbook.Rows.{PrState, CiState}
use specbook.Result.{Result}
use specbook.Github.{Github}

pub record PullRequestEvent : Type 0 where
  pub installation_id : ℕ
  pub repo_full_name : String
  pub pr_number : ℕ
  pub pr_url : String
  pub head_branch : String
  pub base_branch : String
  pub pr_state : PrState

pub record WorkflowRunEvent : Type 0 where
  pub installation_id : ℕ
  pub repo_full_name : String
  pub head_branch : String
  pub ci_state : CiState
  pub pr_numbers : List ℕ
  pub run_id : Option ℕ
  pub head_sha : Option String
  pub run_conclusion : Option String

-- GithubWebhookJobPayload
pub data GithubWebhookJobPayload : Type 0 where
  pull_request : PullRequestEvent → GithubWebhookJobPayload
  workflow_run : WorkflowRunEvent → GithubWebhookJobPayload

-- What a job has besides its event: the time, GitHub, the queue of the deployments, and the
-- identifier that the database makes for the deployment of an environment.
pub record Job : Type 0 where
  pub now : ℕ
  pub github_app : Github
  pub enqueue_deploy : ℕ → Result (Unit {0})
  pub new_deployment_id : ℕ → ℕ
