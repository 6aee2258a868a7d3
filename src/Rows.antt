-- ===== src/Rows.antt =====
-- The rows that the services read and write (packages/database/src/schema), and the requests.
-- Identifiers are opaque and only compared, so they are numbers; a date is its number of
-- milliseconds. A nullable column is an `Option`.
-- The column `id` of a comment is read by nothing that is modelled.
pub mod Accounts
use specbook.Base.{ℕ, String, Bool, Option, List}

-- TASK_STATUSES
pub data Status : Type 0 where
  draft ready in_progress blocked needs_review approved changes_requested done cancelled : Status

-- TASK_COMMENT_KINDS
pub data CommentKind : Type 0 where
  comment progress question answer note : CommentKind

-- TASK_PR_STATES
pub data PrState : Type 0 where
  open_ merged closed : PrState

-- TASK_CI_STATES
pub data CiState : Type 0 where
  pending passing failing : CiState

-- CI_FAILURE_KINDS
pub data CiFailureKind : Type 0 where
  retryable setup external : CiFailureKind

-- TASK_AUTHOR_TYPES: the actor of a request.
pub data Actor : Type 0 where
  user agent : Actor

-- PROJECT_MODES
pub data Mode : Type 0 where
  manual auto_merge auto autonomous : Mode

-- ORGANIZATION_USER_ROLES
pub data OrgRole : Type 0 where
  owner admin member : OrgRole

pub record Criterion : Type 0 where
  pub text : String
  pub done : Bool

pub record AssumptionFlag : Type 0 where
  pub what : String
  pub why : String
  pub how_to_verify : String

pub record Task : Type 0 where
  pub id : ℕ
  pub project_id : ℕ
  pub title : String
  pub context : Option String
  pub out_of_scope : Option String
  pub area : Option String
  pub acceptance_criteria : List Criterion
  pub status : Status
  pub priority : ℕ
  pub claimed_by : Option ℕ
  pub claimed_at : Option ℕ
  pub assignee : Option ℕ
  pub branch : Option String
  pub pr_url : Option String
  pub pr_state : Option PrState
  pub pr_number : Option ℕ
  pub ci_state : Option CiState
  pub ci_failure_kind : Option CiFailureKind
  pub ci_retried_sha : Option String
  pub pr_synced_at : Option ℕ
  pub is_human_task : Bool
  pub cost_tokens_in : Option ℕ
  pub cost_tokens_out : Option ℕ
  pub cost_usd_cents : Option ℕ
  pub status_changed_by : Option ℕ
  pub status_changed_at : Option ℕ
  pub assumption_flag : Option AssumptionFlag
  pub source_research_id : Option ℕ
  pub created_by : ℕ
  pub created_at : ℕ
  pub updated_at : ℕ

-- A row of task_dependency: `task_id` waits for `depends_on_task_id`.
pub record Dependency : Type 0 where
  pub task_id : ℕ
  pub depends_on_task_id : ℕ

pub record TaskComment : Type 0 where
  pub task_id : ℕ
  pub author_id : ℕ
  pub author_type : Actor
  pub kind : CommentKind
  pub body : String
  pub acked_at : Option ℕ
  pub created_at : ℕ

pub record Project : Type 0 where
  pub id : ℕ
  pub org_id : ℕ
  pub repo_url : Option String
  pub github_repo_full_name : Option String
  pub default_branch : String
  pub mode : Mode
  pub max_parallel : Option ℕ
  pub budget_usd_cents : Option ℕ
  pub auto_paused_at : Option ℕ
  pub auto_pause_kind : Option CiFailureKind
  pub auto_pause_pointer : Option String
  pub archived_at : Option ℕ
  pub created_by : ℕ

pub record Organization : Type 0 where
  pub id : ℕ
  pub github_installation_id : Option ℕ

-- A row of project_member: the user may see the project.
pub record ProjectMember : Type 0 where
  pub org_id : ℕ
  pub project_id : ℕ
  pub user_id : ℕ

-- A row of organization_user.
pub record OrganizationUser : Type 0 where
  pub org_id : ℕ
  pub user_id : ℕ
  pub role : OrgRole

pub data NotificationType : Type 0 where
  info warning : NotificationType

-- The column `data`: what the notification points at.
pub data NotificationData : Type 0 where
  court : ℕ → Status → NotificationData
  invitation : ℕ → String → NotificationData

pub record Notification : Type 0 where
  pub user_id : ℕ
  pub org_id : ℕ
  pub type : NotificationType
  pub title : String
  pub message : Option String
  pub payload : NotificationData

-- A row of project_environment, as far as the deployments read it.
pub record ProjectEnvironment : Type 0 where
  pub id : ℕ
  pub project_id : ℕ
  pub auto_deploy : Bool
  pub provision_status : String

-- A row of deployment.
pub record Deployment : Type 0 where
  pub id : ℕ
  pub environment_id : ℕ
  pub sha : String
  pub status : String
  pub trigger : String
  pub created_by : ℕ
  pub created_at : ℕ

-- The session of a request, ActiveUser of packages/contracts/src/schemas/iam.schema.ts.
pub record ActiveUser : Type 0 where
  pub org_id : ℕ
  pub user_id : ℕ
  pub org_role : OrgRole
  pub is_agent : Bool
