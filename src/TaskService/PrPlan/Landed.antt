-- ===== src/TaskService/PrPlan/Landed.antt =====
-- The pull request of a task, and what GitHub has answered of it, in the words of GitHub's answers:
-- what `resolvePr` of apps/api/src/tasks/task.service.ts and the merge after it have established.
use specbook.Base.{
  ℕ, String, ◌≡◌, ap, ◌∙◌, inl, inr, true, Option, none, some, or_else, is_truthy, is_given, not,
  ◌||◌, refl, arith,
}
use specbook.Rows.{Task, PrState, merged, open_, closed}
use specbook.Result.{Result, ok, ◌>>=◌}
use specbook.Result.Steps.{bind_ok, branch_ok}
use specbook.Github.{Github, PullRequest, PrRef}
use specbook.TaskService.Repo.{RepoContext}
use specbook.TaskService.PrPlan.{PrTarget, merged_already, to_merge, resolve_pr, adopt_or_create}

module _ (github : Github) (ctx : RepoContext) (stored : Option ℕ) (branch : Option String) where
  -- The number of the task's pull request: the stored one, that of the pull request which is open for
  -- the branch, or that of the one that GitHub made for the branch.
  pub data IsPrOf (n : ℕ) : Type 0 where
    stored_number : stored ≡ some n → IsPrOf n
    open_for_branch :
        (name : String) (pr : PullRequest)
        → branch ≡ some name
        → github.get_pull_request ctx.installation_id ctx.repo_full_name (PrRef.head_branch name)
          ≡ ok (some pr)
        → pr.state ≡ open_
        → pr.number ≡ n
        → IsPrOf n
    made_for_branch :
        (name title : String)
        → branch ≡ some name
        → github.create_pull_request ctx.installation_id ctx.repo_full_name name ctx.default_branch
            title
          ≡ ok n
        → IsPrOf n

  -- The pull request has landed: GitHub has merged the task's one, or has one of the branch that is
  -- merged.
  pub data Landed (n : ℕ) : Type 0 where
    merged_now :
        IsPrOf n
        → github.merge_pull_request ctx.installation_id ctx.repo_full_name n ≡ ok true
        → Landed n
    found_merged :
        (name : String) (pr : PullRequest)
        → branch ≡ some name
        → github.get_pull_request ctx.installation_id ctx.repo_full_name (PrRef.head_branch name)
          ≡ ok (some pr)
        → pr.state ≡ merged
        → pr.number ≡ n
        → Landed n

  -- What `resolve_pr` has found.
  abbrev pub Resolved : PrTarget → Type 0
  Resolved (merged_already n) = Landed n
  Resolved (to_merge number) = is_truthy number ≡ true → IsPrOf (or_else number 0)

  module _ (name title : String) (given : branch ≡ some name) where
    created :
        (target : PrTarget)
        → (github.create_pull_request ctx.installation_id ctx.repo_full_name name ctx.default_branch
              title
            >>= λ n. ok (to_merge (some n)))
          ≡ ok target
        → Resolved target
    created (merged_already n) h =
        let (m, made, e) =
          bind_ok
            (github.create_pull_request ctx.installation_id ctx.repo_full_name name
              ctx.default_branch title)
            _ h in
        absurd (not_merged e)
      where
        not_merged : {m : ℕ} → ¬ (ok (to_merge (some m)) ≡ ok (merged_already n))
        not_merged h = cc
    created (to_merge number) h = λ number_given.
        let (m, made, e) =
          bind_ok
            (github.create_pull_request ctx.installation_id ctx.repo_full_name name
              ctx.default_branch title)
            _ h in
        made_for_branch name title given (made ∙ ap ok (ground (arith, e)))

    adopted :
        (existing : Option PullRequest) (target : PrTarget)
        → github.get_pull_request ctx.installation_id ctx.repo_full_name (PrRef.head_branch name)
          ≡ ok existing
        → adopt_or_create github ctx name title existing ≡ ok target
        → Resolved target
    unfolding adopt_or_create
    adopted none target asked h = created target h
    adopted (some pr) target asked h = by_state pr.state refl target h
      where
        create : Result PrTarget
        create =
            github.create_pull_request ctx.installation_id ctx.repo_full_name name
              ctx.default_branch title
            >>= λ m. ok (to_merge (some m))

        by_state :
            (state : PrState)
            → pr.state ≡ state
            → (target : PrTarget)
            → (elim state [
              | merged ↦ ok (merged_already pr.number)
              | open_ ↦ ok (to_merge (some pr.number))
              | closed ↦ create
            ])
              ≡ ok target
            → Resolved target
        by_state merged e (merged_already n) h = found_merged name pr given asked e cc
        by_state merged e (to_merge m) h = cc
        by_state open_ e (merged_already n) h = cc
        by_state open_ e (to_merge m) h =
            λ number_given. open_for_branch name pr given asked e (ground (arith, h))
        by_state closed e target h = created target h

pub resolve_pr-Resolved :
    (github : Github) (ctx : RepoContext) (t : Task) (target : PrTarget)
    → resolve_pr github ctx t ≡ ok target
    → Resolved github ctx t.pr_number t.branch target
unfolding resolve_pr
resolve_pr-Resolved github ctx t target h =
    elim (branch_ok (is_truthy t.pr_number || not (is_given t.branch)) (ok (to_merge t.pr_number)) _
      h) [
        | inl stored ↦ by_number target stored.1
        | inr asked ↦
            let (existing, answer, rest) =
              bind_ok
                (github.get_pull_request ctx.installation_id ctx.repo_full_name
                  (PrRef.head_branch (or_else t.branch "")))
                _ asked.1 in
            adopted github ctx t.pr_number t.branch (or_else t.branch "") t.title
              (named t.branch (ground (arith, asked.0))) existing target answer rest
      ]
  where
    named : (b : Option String) → is_given b ≡ true → b ≡ some (or_else b "")
    named none h = cc
    named (some name) h = refl

    number_of : (m : Option ℕ) → is_truthy m ≡ true → m ≡ some (or_else m 0)
    number_of none h = cc
    number_of (some n) h = refl

    by_number :
        (target : PrTarget)
        → ok (to_merge t.pr_number) ≡ ok target
        → Resolved github ctx t.pr_number t.branch target
    by_number (merged_already n) e = cc
    by_number (to_merge m) e =
        λ given. let same : t.pr_number ≡ m = cc in stored_number (same ∙ number_of m given)
