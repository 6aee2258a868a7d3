-- ===== src/Workflow/MergeGate.antt =====
-- What a merge has established: `merge` of apps/api/src/tasks/task.service.ts.
use specbook.Base.{
  ℕ, ◌≡◌, sym, ap, ◌∙◌, inl, inr, true, false, Option, none, some, Memᴰ, or_else, not, is_truthy,
  refl, arith,
}
use mathlib.Core.Path.{subst}
use specbook.Rows.{Task, approved, done, merged, open_, closed, failing, PrState, CiState}
use specbook.Protocol.{same_status, same_status_iff, is_pr_state, is_ci_state}
use specbook.Result.{Result, ok, not_found}
use specbook.Result.Steps.{bind_ok, passed, branch_ok}
use specbook.Action.{Db}
use specbook.Action.Runs.{check_ok}
use specbook.Github.{Github}
use specbook.Session.{Session}
use specbook.TaskService.Access.{require_task}
use specbook.TaskService.Repo.{RepoContext, github_repo_context}
use specbook.TaskService.PrPlan.Landed.{Landed, merged_now, Resolved, resolve_pr-Resolved}
use specbook.TaskService.PrPlan.{
  PrTarget, merged_already, to_merge, merge_target, resolve_pr, plan_merge,
}
use specbook.TaskService.Merge.{merge, finalize_merged, merged_patch}
use specbook.TaskRepository.{stamp}
use specbook.Invariant.{IsValid}
use specbook.Invariant.Access.{require_task_row}
use specbook.Workflow.Bookkeeping.{updated_row}

-- What a merge has established of the task and of its pull request: the task was recorded as merged
-- before, with its number, or its pull request has landed in the repository of its project.
pub data OnGithub (s : Session) (db : Db) (t : Task) (number : Option ℕ) : Type 0 where
  recorded : t.pr_state ≡ some merged → number ≡ t.pr_number → OnGithub s db t number
  landed :
      (ctx : RepoContext) (n : ℕ)
      → github_repo_context s.github_app s.active_user.org_id t.project_id db ≡ ok ctx
      → Landed s.github_app ctx t.pr_number t.branch n
      → number ≡ some n
      → OnGithub s db t number

pub record IsMergeable (s : Session) (db : Db) (t : Task) (number : Option ℕ) : Type 0 where
  pub was_approved : t.status ≡ approved
  pub not_failing : ¬ (t.ci_state ≡ some failing)
  pub on_github : OnGithub s db t number

merge_target-Landed :
    (github : Github) (ctx : RepoContext) (t : Task) (target : PrTarget) {r : Option ℕ}
    → Resolved github ctx t.pr_number t.branch target
    → merge_target github ctx target ≡ ok r
    → (n : ℕ) × Landed github ctx t.pr_number t.branch n × (r ≡ some n)
unfolding merge_target
merge_target-Landed github ctx t (merged_already n) found h = (n, found, sym (ground arith))
merge_target-Landed github ctx t (to_merge n) found h =
    let (number, rest) = passed (not (is_truthy n)) _ _ h in
    let (answer, said, last) =
      bind_ok (github.merge_pull_request ctx.installation_id ctx.repo_full_name (or_else n 0)) _
        rest in
    let (yes_done, result) = passed (not answer) _ _ last in
    (
      or_else n 0,
      merged_now (found (ground (arith, number))) (said ∙ ap ok (ground (arith, yes_done))),
      number_of n (ground (arith, number)) result,
    )
  where
    number_of :
        (n : Option ℕ) {r : Option ℕ} → is_truthy n ≡ true → ok n ≡ ok r → r ≡ some (or_else n 0)
    number_of none h e = cc
    number_of (some n) h e = cc

is_failing : (c : Option CiState) → is_ci_state c failing ≡ false → ¬ (c ≡ some failing)
is_failing c h e = ground (arith, e)

is_merged : (p : Option PrState) → is_pr_state p merged ≡ true → p ≡ some merged
is_merged none h = cc
is_merged (some open_) h = cc
is_merged (some merged) h = refl
is_merged (some closed) h = cc

plan_merge-IsMergeable :
    (s : Session) (id : ℕ) (db : Db) {n : Option ℕ}
    → plan_merge s id db ≡ ok n
    → (t : Task) × (require_task s.active_user id true db ≡ ok t) × IsMergeable s db t n
unfolding plan_merge
plan_merge-IsMergeable s id db h =
    let (cur, found, after_task) = bind_ok (require_task s.active_user id true db) _ h in
    let (status, after_status) = passed (not (same_status cur.status approved)) _ _ after_task in
    let (not_failing, rest) = passed (is_ci_state cur.ci_state failing) _ _ after_status in
    (
      cur,
      found,
      record {
        was_approved = ground (arith, status, same_status_iff cur.status approved);
        not_failing = is_failing cur.ci_state not_failing;
        on_github = elim (branch_ok (is_pr_state cur.pr_state merged) (ok cur.pr_number) _ rest) [
          | inl already ↦
              recorded (is_merged cur.pr_state already.0) (sym (ground (arith, already.1)))
          | inr asked ↦
              let (ctx, there, after_ctx) =
                bind_ok (github_repo_context s.github_app s.active_user.org_id cur.project_id db) _
                  asked.1 in
              let (target, resolved, last) =
                bind_ok (resolve_pr s.github_app ctx cur) _ after_ctx in
              let (m, proof, number) =
                merge_target-Landed s.github_app ctx cur target
                  (resolve_pr-Resolved s.github_app ctx cur target resolved) last in
              landed ctx m there proof number
        ];
      },
    )

-- A merge that returned: the task was approved and its CI not failing; the row is done, with its pull
-- request recorded as merged; and either the task had that record before and keeps its number, or the
-- row has the number of a pull request that GitHub has merged now or has answered to be merged, in the
-- repository of the task's project. It is the task's own: one it is asked to merge has the number that
-- was stored on the task, or is the one that GitHub has open or makes for the task's branch, and one that
-- is merged already is the one that GitHub has for that branch.
pub merge_ok :
    (s : Session) (id : ℕ) (db : Db) {t : Task}
    → IsValid db
    → (merge s id db).0 ≡ ok t
    → (cur : Task) × Memᴰ cur db.tasks
      × (cur.id ≡ id)
      × IsMergeable s db cur t.pr_number
      × (t.id ≡ id)
      × (t.status ≡ done)
      × (t.pr_state ≡ some merged)
unfolding merge finalize_merged merged_patch stamp
merge_ok s id db {t} h e =
    let (n, planned, run) = check_ok (plan_merge s id) _ db e in
    let (cur, found, mergeable) = plan_merge-IsMergeable s id db planned in
    let (m, same) = require_task_row s.active_user id true db found in
    let (row, at, row_id, made) =
      updated_row s.now id s.active_user.org_id (merged_patch s n) not_found db
        (sym (ap (λ (r : Result Task × Db). r.0) run) ∙ e) in
    (
      cur,
      m,
      same,
      subst (IsMergeable s db cur) (sym (ap (λ (t : Task). t.pr_number) made)) mergeable,
      ap (λ (t : Task). t.id) made ∙ row_id,
      ap (λ (t : Task). t.status) made,
      ap (λ (t : Task). t.pr_state) made,
    )
