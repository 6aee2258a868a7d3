-- ===== src/TaskService/PrPlan.antt =====
-- What apps/api/src/tasks/task.service.ts asks of GitHub before it writes: the checks of `merge`,
-- `syncPr`, `getPr` and `maybeOpenReviewPr`, each up to its first write.
pub mod Landed
use specbook.Base.{
  ℕ, String, Bool, true, false, Option, none, some, [], ◌∷◌, not, ◌&&◌, ◌||◌, is_truthy, is_given,
  has_text, or_else, concat, decimal, if◌then◌else◌,
}
use specbook.Rows.{Task, Project, approved, open_, merged, closed, failing, auto, auto_merge}
use specbook.Protocol.{same_status, same_mode, is_pr_state, is_ci_state}
use specbook.Result.{
  Result, ok, ◌>>=◌, ◌>>◌, fail_if, or_fail, merge_not_approved, merge_ci_failing, merge_no_pr,
  merge_conflict, sync_no_pr,
}
use specbook.Action.{Db}
use specbook.Github.{Github, PullRequest, PrRef}
use specbook.Session.{Session}
use specbook.ProjectRepository.{find_project}
use specbook.TaskService.Access.{require_task}
use specbook.TaskService.Repo.{RepoContext, github_repo_context}

-- The pull request of a task: merged already, or the number of the one to merge.
pub data PrTarget : Type 0 where
  merged_already : ℕ → PrTarget
  to_merge : Option ℕ → PrTarget

-- A pull request found for the branch is adopted; a closed one, or none, makes a new one.
unfoldable pub adopt_or_create :
    Github → RepoContext → String → String → Option PullRequest → Result PrTarget
adopt_or_create github ctx branch title existing =
    let create = (do
      n ←
          github.create_pull_request ctx.installation_id ctx.repo_full_name branch
            ctx.default_branch title
      ok (to_merge (some n))) in
    elim existing [
      | none ↦ create
      | some pr ↦ elim pr.state [
        | merged ↦ ok (merged_already pr.number)
        | open_ ↦ ok (to_merge (some pr.number))
        | closed ↦ create
      ]
    ]

-- The number the webhook stored, else the pull request of the branch, else a new one.
unfoldable pub resolve_pr : Github → RepoContext → Task → Result PrTarget
unfolding adopt_or_create
resolve_pr github ctx t =
    if is_truthy t.pr_number || not (is_given t.branch) then ok (to_merge t.pr_number) else (do
      let branch = or_else t.branch ""
      existing ←
          github.get_pull_request ctx.installation_id ctx.repo_full_name (PrRef.head_branch branch)
      adopt_or_create github ctx branch t.title existing)

-- Merges the target, and gives the number that the task records.
unfoldable pub merge_target : Github → RepoContext → PrTarget → Result (Option ℕ)
merge_target github ctx (merged_already n) = ok (some n)
merge_target github ctx (to_merge pr_number) = do
  fail_if (not (is_truthy pr_number)) merge_no_pr
  done ← github.merge_pull_request ctx.installation_id ctx.repo_full_name (or_else pr_number 0)
  fail_if (not done) merge_conflict
  ok pr_number

-- `merge` before `finalizeMerged`: the number of the pull request that is merged.
unfoldable pub plan_merge : Session → ℕ → Db → Result (Option ℕ)
unfolding resolve_pr merge_target
plan_merge s id db = do
  current ← require_task s.active_user id true db
  fail_if (not (same_status current.status approved)) merge_not_approved
  fail_if (is_ci_state current.ci_state failing) merge_ci_failing
  let by_github = (do
    ctx ← github_repo_context s.github_app s.active_user.org_id current.project_id db
    target ← resolve_pr s.github_app ctx current
    merge_target s.github_app ctx target)
  if is_pr_state current.pr_state merged then ok current.pr_number else by_github

-- How `getPr` and `syncPr` name the pull request of a task.
unfoldable pub pr_ref : Task → Option PrRef
pr_ref t =
    if is_truthy t.pr_number
    then some (PrRef.number (or_else t.pr_number 0))
    else if is_given t.branch
    then some (PrRef.head_branch (or_else t.branch ""))
    else none

-- The read of `getPr` and `syncPr`.
unfoldable pub look_up_pr : Github → RepoContext → Option PrRef → Result (Option PullRequest)
look_up_pr github ctx none = ok none
look_up_pr github ctx (some ref) =
    github.get_pull_request ctx.installation_id ctx.repo_full_name ref

-- `getPr`
unfoldable pub get_pr : Session → ℕ → Db → Result PullRequest
unfolding pr_ref look_up_pr
get_pr s id db = do
  current ← require_task s.active_user id false db
  ctx ← github_repo_context s.github_app s.active_user.org_id current.project_id db
  pr ← look_up_pr s.github_app ctx (pr_ref current)
  or_fail merge_no_pr pr

-- `syncPr` before its writes.
unfoldable pub plan_sync : Session → ℕ → Db → Result PullRequest
unfolding pr_ref look_up_pr
plan_sync s id db = do
  current ← require_task s.active_user id true db
  fail_if (not (is_truthy current.pr_number) && not (has_text current.branch)) sync_no_pr
  ctx ← github_repo_context s.github_app s.active_user.org_id current.project_id db
  pr ← look_up_pr s.github_app ctx (pr_ref current)
  or_fail sync_no_pr pr

-- What `maybeOpenReviewPr` does.
pub data ReviewPr : Type 0 where
  leave : ReviewPr
  finalize : ℕ → ReviewPr
  record_open : ℕ → String → ReviewPr

-- `https://github.com/${repoFullName}/pull/${prNumber}`
abbrev pub pull_url : String → ℕ → String
pull_url repo n = concat ("https://github.com/" ∷ repo ∷ "/pull/" ∷ decimal n ∷ [])

unfoldable pub open_or_adopt :
    Github → RepoContext → String → String → Option PullRequest → Result ReviewPr
open_or_adopt github ctx branch title existing =
    let create = (do
      n ←
          github.create_pull_request ctx.installation_id ctx.repo_full_name branch
            ctx.default_branch title
      ok (record_open n (pull_url ctx.repo_full_name n))) in
    elim existing [
      | none ↦ create
      | some pr ↦ elim pr.state [
        | merged ↦ ok (finalize pr.number)
        | open_ ↦ ok (record_open pr.number pr.url)
        | closed ↦ create
      ]
    ]

-- The modes in which `maybeOpenReviewPr` acts: `proj.mode` is 'auto' or 'auto_merge'.
unfoldable pub opens_review_pr : Option Project → Bool
opens_review_pr none = false
opens_review_pr (some p) = same_mode p.mode auto || same_mode p.mode auto_merge

-- `maybeOpenReviewPr` before its writes.
unfoldable pub plan_review_pr : Session → Task → Db → Result ReviewPr
unfolding open_or_adopt opens_review_pr
plan_review_pr s current db =
    let open_pr = (do
      ctx ← github_repo_context s.github_app s.active_user.org_id current.project_id db
      existing ←
          s.github_app.get_pull_request ctx.installation_id ctx.repo_full_name
            (PrRef.head_branch (or_else current.branch ""))
      open_or_adopt s.github_app ctx (or_else current.branch "") current.title existing) in
    if current.is_human_task
      || is_truthy current.pr_number
      || not (has_text current.branch)
      || is_pr_state current.pr_state merged
      || not s.github_app.enabled
      || not (opens_review_pr (find_project db current.project_id s.active_user.org_id none))
    then ok leave
    else open_pr
