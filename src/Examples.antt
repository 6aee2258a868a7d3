-- ===== src/Examples.antt =====
-- Concrete tables and requests for the tests and the examples: one organization with a project of
-- each kind.
pub mod Runs
pub mod Requests
pub mod Rules
pub mod Webhook
pub mod Invites
use specbook.Base.{ℕ, String, Bool, true, false, Option, none, some, List, [], ◌∷◌, ◌≡◌, refl}
use specbook.Rows.{
  Task, Status, draft, ready, in_progress, needs_review, approved, done, Dependency, TaskComment,
  Project, Mode, manual, auto, autonomous, Organization, OrganizationUser, OrgRole, owner, admin,
  merged, open_, passing, Actor, user, agent, CommentKind, note, Criterion, ActiveUser,
}
use specbook.Result.{ok}
use specbook.Action.{Db}
use specbook.Github.{Github}
use specbook.Session.{Session}
use specbook.ProjectRepository.{org_guard}
use specbook.TaskService.Cycle.{would_cycle, search_loop}
use specbook.Invariant.{IsValid}
use specbook.Invariant.Check.{passes_check, passes_check-IsValid}

abbrev pub blank : ℕ → ℕ → Status → Task
blank id project_id status = record {
  id = id;
  project_id = project_id;
  title = "Task";
  context = none;
  out_of_scope = none;
  area = none;
  acceptance_criteria = [];
  status = status;
  priority = 0;
  claimed_by = none;
  claimed_at = none;
  assignee = none;
  branch = none;
  pr_url = none;
  pr_state = none;
  pr_number = none;
  ci_state = none;
  ci_failure_kind = none;
  ci_retried_sha = none;
  pr_synced_at = none;
  is_human_task = false;
  cost_tokens_in = none;
  cost_tokens_out = none;
  cost_usd_cents = none;
  status_changed_by = none;
  status_changed_at = none;
  assumption_flag = none;
  source_research_id = none;
  created_by = 5;
  created_at = id;
  updated_at = id;
}

-- A draft that is specified, and the work that it waits for.
abbrev pub specified : Task
specified = record (blank 2 10 draft) {
  context = some "why";
  acceptance_criteria = (record { text = "it works"; done = false }) ∷ [];
}

abbrev pub at_work : Task
at_work = record (blank 1 10 in_progress) {
  claimed_by = some 6;
  branch = some "feature";
  pr_url = some "https://github.com/acme/app/pull/7";
  cost_usd_cents = some 40;
}

-- In review with passing CI, in a project that runs on its own, but with an assumption to check.
abbrev pub flagged : Task
flagged = record (blank 3 20 needs_review) {
  ci_state = some passing;
  pr_number = some 8;
  assumption_flag = some (record { what = "a"; why = "b"; how_to_verify = "c" });
}

abbrev pub unflagged : Task
unflagged = record flagged { id = 4; assumption_flag = none }

abbrev pub merged_already : Task
merged_already = record (blank 5 10 approved) { pr_state = some merged; pr_number = some 9 }

abbrev pub queued : Task
queued = blank 6 10 ready

abbrev pub in_autonomous : Task
in_autonomous = record (blank 7 30 needs_review) { branch = some "other" }

abbrev pub finished : Task
finished = blank 8 20 done

abbrev pub note_to_agent : TaskComment
note_to_agent = record {
  task_id = 1;
  author_id = 5;
  author_type = user;
  kind = note;
  body = "mind the tests";
  acked_at = none;
  created_at = 3;
}

abbrev pub project_of : ℕ → Mode → Project
project_of id mode = record {
  id = id;
  org_id = 1;
  repo_url = none;
  github_repo_full_name = some "acme/app";
  default_branch = "main";
  mode = mode;
  max_parallel = none;
  budget_usd_cents = none;
  auto_paused_at = none;
  auto_pause_kind = none;
  auto_pause_pointer = none;
  archived_at = none;
  created_by = 5;
}

abbrev pub world : Db
world = record {
  organizations = (record { id = 1; github_installation_id = some 77 }) ∷ [];
  organization_users = (record { org_id = 1; user_id = 5; role = owner }) ∷ [];
  projects = project_of 10 manual ∷ project_of 20 auto ∷ project_of 30 autonomous ∷ [];
  project_members = [];
  tasks =
      at_work ∷ specified ∷ flagged ∷ unflagged ∷ merged_already ∷ queued ∷ in_autonomous ∷ finished
      ∷ [];
  dependencies = (record { task_id = 2; depends_on_task_id = 1 }) ∷ [];
  comments = [];
  notifications = [];
  users = [];
  invitations = [];
  environments =
      (record { id = 50; project_id = 20; auto_deploy = true; provision_status = "provisioned" })
      ∷ [];
  deployments = [];
  deploy_queue = [];
  reruns = [];
}

abbrev pub noted : Db
noted = record world { comments = note_to_agent ∷ [] }

pub world-IsValid : IsValid world
unfolding passes_check would_cycle search_loop
world-IsValid = passes_check-IsValid world refl

pub noted-IsValid : IsValid noted
unfolding passes_check would_cycle search_loop
noted-IsValid = passes_check-IsValid noted refl

-- An installation of GitHub that merges whatever it is asked to merge, and knows no pull request.
abbrev pub github : Github
github = record {
  enabled = true;
  get_pull_request = λ installation repo ref. ok none;
  create_pull_request = λ installation repo head base title. ok 8;
  merge_pull_request = λ installation repo number. ok true;
  list_workflow_jobs = λ installation repo run. [];
  rerun_failed_jobs = λ installation repo run. true;
}

abbrev pub by_owner : Session
by_owner = record {
  active_user = record { org_id = 1; user_id = 5; org_role = owner; is_agent = false };
  now = 100;
  github_app = github;
  fails = λ statement. false;
}

abbrev pub by_agent : Session
by_agent = record {
  active_user = record { org_id = 1; user_id = 6; org_role = OrgRole.member; is_agent = true };
  now = 101;
  github_app = github;
  fails = λ statement. false;
}
