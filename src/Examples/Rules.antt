-- ===== src/Examples/Rules.antt =====
-- Examples of the rules of packages/server and of the permissions.
use specbook.Base.{true, false, some, List, [], ◌∷◌, ◌≡◌, refl, Memᴰ, is_text, count_where, leb}
use specbook.Rows.{retryable}
use specbook.Github.{CiJob}
use specbook.Server.AutoDeploy.{
  DeploymentVerdict, compute_auto_deploy_paused, is_auto_failure, since_settled,
  paused_counts_auto_failures,
}
use specbook.Server.CiClassify.{
  CiRunFacts, classify_ci_failure, classify_jobs, first_external, spaced,
  retryable_is_never_a_failure,
}
use specbook.Permissions.{
  has_permission, lists, permissions, get_permissions_for_role, owner_permissions,
  admin_permissions, member_permissions, members_are_admins, admins_are_owners,
  granted_is_catalogued,
}

abbrev history : List DeploymentVerdict
history =
    record { status = "failed"; trigger = "auto" }
    ∷ record { status = "failed"; trigger = "manual" }
    ∷ record { status = "failed"; trigger = "auto" }
    ∷ record { status = "healthy"; trigger = "auto" }
    ∷ []

paused_counts_auto_failures_example :
    compute_auto_deploy_paused history ≡ leb 2 (count_where is_auto_failure (since_settled history))
paused_counts_auto_failures_example = paused_counts_auto_failures history

abbrev slow_job : CiJob
slow_job = record { name = "test"; conclusion = some "timed_out"; steps = [] }

abbrev slow_run : CiRunFacts
slow_run = record { run_conclusion = "failure"; jobs = slow_job ∷ [] }

slow_run_retryable :
    classify_ci_failure slow_run
    ≡ some (record { kind = retryable; pointer = "job test timed out" })
unfolding classify_ci_failure classify_jobs first_external spaced
slow_run_retryable = refl

retryable_is_never_a_failure_example : is_text slow_job.conclusion "failure" ≡ false
retryable_is_never_a_failure_example =
    retryable_is_never_a_failure slow_run slow_job slow_run_retryable refl refl (Memᴰ.head refl)

member_comments : has_permission "MEMBER" "task:comment" ≡ true
unfolding has_permission get_permissions_for_role owner_permissions admin_permissions
    member_permissions
member_comments = refl

members_are_admins_example : has_permission "ADMIN" "task:comment" ≡ true
members_are_admins_example = members_are_admins "task:comment" member_comments

admin_merges : has_permission "ADMIN" "task:merge" ≡ true
unfolding has_permission get_permissions_for_role owner_permissions admin_permissions
    member_permissions
admin_merges = refl

admins_are_owners_example : has_permission "OWNER" "task:merge" ≡ true
admins_are_owners_example = admins_are_owners "task:merge" admin_merges

granted_is_catalogued_example : lists permissions "task:comment" ≡ true
granted_is_catalogued_example = granted_is_catalogued "MEMBER" "task:comment" member_comments

-- Only an owner opens a shell on a server, and an unknown role may do nothing.
no_shell : has_permission "ADMIN" "server:shell" ≡ false
unfolding has_permission get_permissions_for_role owner_permissions admin_permissions
    member_permissions
no_shell = refl

stale_role : has_permission "EDITOR" "task:read" ≡ false
unfolding has_permission get_permissions_for_role owner_permissions admin_permissions
    member_permissions
stale_role = refl
