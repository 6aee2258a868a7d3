-- ===== src/Examples/Webhook.antt =====
-- Webhook events on the tables of Examples.antt, and the properties that they exercise.
use specbook.Base.{◌≡◌, ◌≢◌, refl, ap, true, false, none, some, [], ◌∷◌, Pairwise, Memᴰ}
use specbook.Worker.Deploy.{deploy_environment}
use specbook.Worker.Collapse.{triggers_collapse}
use specbook.Rows.{ProjectEnvironment, Organization, passing, failing, in_progress, auto, agent}
use specbook.Protocol.{grants_auto_merge}
use specbook.Server.CiClassify.{classify_ci_failure}
use specbook.TaskRepository.{update_where, stamp}
use specbook.Worker.Progress.{has_no_rows}
use specbook.Result.{ok}
use specbook.Action.{Db, ◌>>=◌, ◌>>◌, resume, pure, when, modify}
use specbook.Invariant.{IsValid}
use specbook.Invariant.Check.{passes_check, passes_check-IsValid}
use specbook.TaskService.Cycle.{would_cycle, search_loop}
use specbook.System.{Request, serve}
use specbook.System.Isolation.{foreign_tasks, foreign_tasks-serve}
use specbook.Worker.{Job, WorkflowRunEvent, workflow_run}
use specbook.Worker.Projects.{ProjectRow, organization_of, projects_of_event}
use specbook.Worker.Events.{
  process, apply_workflow_run, classification_of, is_retryable, break_circuits, break_circuit,
  may_retry, maybe_retry, ask_rerun, ci_patch, retried_patch,
}
use specbook.Worker.Isolation.{foreign_tasks-process}
use specbook.Worker.Policy.{Advanced}
use specbook.Worker.Moves.{process-Advanced}
use specbook.Worker.Retry.{reruns_once}
use specbook.Worker.Breaker.{IsPaused, is_guarded, red_default_branch_pauses}
use specbook.Examples.{world, project_of, blank, github, by_agent}

abbrev first_org : Organization
first_org = record { id = 1; github_installation_id = some 77 }

-- A second organization with a task at work.
abbrev two_orgs : Db
two_orgs = record world {
  organizations = first_org ∷ (record { id = 2; github_installation_id = some 78 }) ∷ [];
  projects = record (project_of 40 auto) { org_id = 2 } ∷ world.projects;
  tasks = record (blank 9 40 in_progress) { claimed_by = some 6 } ∷ world.tasks;
}

two_orgs-IsValid : IsValid two_orgs
unfolding passes_check would_cycle search_loop
two_orgs-IsValid = passes_check-IsValid two_orgs refl

abbrev job : Job
job = record {
  now = 200;
  github_app = github;
  enqueue_deploy = λ id. ok tt;
  new_deployment_id = λ id. id;
}

-- A run of the pull request 8, which two tasks in review have.
abbrev run : WorkflowRunEvent
run = record {
  installation_id = 77;
  repo_full_name = "acme/app";
  head_branch = "topic";
  ci_state = passing;
  pr_numbers = 8 ∷ [];
  run_id = some 5;
  head_sha = some "c0ffee";
  run_conclusion = none;
}

abbrev claim_queued : Request
claim_queued = Request.transition agent (record { id = 6; to = in_progress; comment = none })

foreign_tasks-serve_example :
    foreign_tasks (serve by_agent claim_queued two_orgs) 1 ≡ foreign_tasks two_orgs 1
foreign_tasks-serve_example = foreign_tasks-serve by_agent claim_queued two_orgs tt

held_by_first : organization_of two_orgs 77 ≡ some first_org
unfolding organization_of
held_by_first = refl

foreign_tasks-process_example :
    foreign_tasks (process job (workflow_run run) two_orgs).1 1 ≡ foreign_tasks two_orgs 1
foreign_tasks-process_example =
    foreign_tasks-process job (workflow_run run) two_orgs first_org held_by_first two_orgs-IsValid

process-Advanced_example :
    Pairwise
      (Advanced job (workflow_run run) (projects_of_event two_orgs 1 "acme/app"))
      two_orgs.tasks
      (process job (workflow_run run) two_orgs).1.tasks
process-Advanced_example =
    process-Advanced job (workflow_run run) two_orgs first_org held_by_first two_orgs-IsValid

-- The same run, cancelled by GitHub.
abbrev stopped : WorkflowRunEvent
stopped = record run { ci_state = failing; run_conclusion = some "cancelled" }

abbrev auto_row : ProjectRow
auto_row = record {
  id = 20;
  mode = auto;
  default_branch = "main";
  auto_paused_at = none;
  created_by = 5;
}

asks_again : (apply_workflow_run job (auto_row ∷ []) stopped world).1.reruns ≢ world.reruns
unfolding apply_workflow_run classification_of classify_ci_failure break_circuits break_circuit
    grants_auto_merge may_retry maybe_retry ask_rerun update_where stamp ci_patch retried_patch
    ◌>>=◌ ◌>>◌ resume pure when modify
asks_again h = let e : false ≡ true = ap has_no_rows h in cc

stopped_is_flake : is_retryable (classification_of job stopped) ≡ true
unfolding classification_of classify_ci_failure
stopped_is_flake = refl

reruns_once_example :
    (apply_workflow_run job
      (auto_row ∷ [])
      stopped
      (apply_workflow_run job (auto_row ∷ []) stopped world).1).1.reruns
    ≡ (apply_workflow_run job (auto_row ∷ []) stopped world).1.reruns
reruns_once_example =
    reruns_once job job stopped (auto_row ∷ []) world refl stopped_is_flake stopped_is_flake
      asks_again

-- A red main.
abbrev broken : WorkflowRunEvent
broken = record run { ci_state = failing; head_branch = "main"; run_conclusion = some "failure" }

broken_is_real : is_retryable (classification_of job broken) ≡ false
unfolding classification_of classify_ci_failure
broken_is_real = refl

broken-is_guarded : is_guarded broken auto_row ≡ true
unfolding grants_auto_merge
broken-is_guarded = refl

red_default_branch_pauses_example :
    IsPaused 20 (apply_workflow_run job (auto_row ∷ []) broken world).1
red_default_branch_pauses_example =
    red_default_branch_pauses job broken (auto_row ∷ []) world auto_row refl broken_is_real
      (Memᴰ.head refl) broken-is_guarded refl

-- Two merges into the branch that an environment deploys.
abbrev staging : ProjectEnvironment
staging = record { id = 50; project_id = 20; auto_deploy = true; provision_status = "provisioned" }

triggers_collapse_example :
    (deploy_environment job auto_row staging (deploy_environment job auto_row staging world).1).1
    ≡ (deploy_environment job auto_row staging world).1
triggers_collapse_example = triggers_collapse job job auto_row auto_row staging world tt
