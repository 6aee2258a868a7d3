-- ===== src/Github.antt =====
-- packages/server/src/modules/github/github-app.service.ts as its callers see it. What the methods
-- answer comes from GitHub, so the service is a parameter: the answers of one request or one job.
use specbook.Base.{ℕ, String, Bool, Option, List}
use specbook.Rows.{PrState}
use specbook.Result.{Result}

-- The fields of GithubPullRequest that the callers read.
pub record PullRequest : Type 0 where
  pub number : ℕ
  pub url : String
  pub state : PrState

-- The argument `ref` of getPullRequest.
pub data PrRef : Type 0 where
  number : ℕ → PrRef
  head_branch : String → PrRef

pub record CiJobStep : Type 0 where
  pub name : String
  pub conclusion : Option String

pub record CiJob : Type 0 where
  pub name : String
  pub conclusion : Option String
  pub steps : List CiJobStep

-- Each method takes the installation and the repository's full name first. `err` is a throw.
pub record Github : Type 0 where
  pub enabled : Bool
  pub get_pull_request : ℕ → String → PrRef → Result (Option PullRequest)
  -- head, base and title
  pub create_pull_request : ℕ → String → String → String → String → Result ℕ
  pub merge_pull_request : ℕ → String → ℕ → Result Bool
  pub list_workflow_jobs : ℕ → String → ℕ → List CiJob
  pub rerun_failed_jobs : ℕ → String → ℕ → Bool
