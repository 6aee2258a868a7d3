-- ===== src/Handlers/Merge.antt =====
-- The methods of TaskService/Merge.antt: the merge gate, the sync and the automation.
use specbook.Base.{ℕ, refl, Option, none, some, Bool-cases, inl, inr, is_some}
use specbook.Rows.{Task, PrState, open_, merged, closed}
use specbook.Action.Keeps.{Keeps, Keeps-pure, Keeps-gets, Keeps-or_raise, Keeps-bind, Keeps-then}
use specbook.Github.{PullRequest}
use specbook.Session.{Session}
use specbook.TaskService.PrPlan.{ReviewPr, leave, finalize, record_open}
use specbook.TaskService.Merge.{
  merged_patch, finalize_merged, merge, apply_sync, sync_pr, apply_review_pr, maybe_open_review_pr,
  AutoStep, hold, approve_first, go_on, merge_unflagged, after_approval, run_auto_step,
  maybe_auto_progress, approved_patch,
}
use specbook.Action.{Db}
use specbook.Handlers.{Rules}
use specbook.Handlers.Edits.{after_check, update_or_fail, plain}

module _ (P : Db → Type 0) (s : Session) (rules : Rules P s) where
  pub Keeps-finalize_merged : (id : ℕ) (n : Option ℕ) → Keeps P (finalize_merged s id n)
  unfolding finalize_merged merged_patch
  Keeps-finalize_merged id n =
      update_or_fail P s rules id _ _ (plain _ (λ t. refl) (λ t. refl)) (λ t h. refl)

  pub Keeps-merge : (id : ℕ) → Keeps P (merge s id)
  unfolding merge
  Keeps-merge id = after_check P _ _ λ n. Keeps-finalize_merged id n

  Keeps-apply_sync :
      (id : ℕ) (pr : PullRequest) (state : PrState) → Keeps P (apply_sync s id pr state)
  unfolding apply_sync
  Keeps-apply_sync id pr merged =
      Keeps-bind P _ _ (Keeps-finalize_merged id _)
        λ row. Keeps-then P _ _ (rules.add_comment_row _) (Keeps-pure P _)
  Keeps-apply_sync id pr open_ =
      update_or_fail P s rules id _ _ (plain _ (λ t. refl) (λ t. refl)) (λ t h. h)
  Keeps-apply_sync id pr closed =
      Keeps-bind P _ _ (rules.update_row id _ (plain _ (λ t. refl) (λ t. refl)) (λ t h. h)) λ row.
        Keeps-bind P _ _ (Keeps-or_raise P _ row)
          λ updated. Keeps-then P _ _ (rules.add_comment_row _) (Keeps-pure P _)

  pub Keeps-sync_pr : (id : ℕ) → Keeps P (sync_pr s id)
  unfolding sync_pr
  Keeps-sync_pr id = after_check P _ _ λ pr. Keeps-apply_sync id pr pr.state

  Keeps-apply_review_pr : (id : ℕ) (step : ReviewPr) → Keeps P (apply_review_pr s id step)
  unfolding apply_review_pr
  Keeps-apply_review_pr id leave = Keeps-pure P tt
  Keeps-apply_review_pr id (finalize n) =
      Keeps-bind P _ _ (Keeps-finalize_merged id _) (λ _. Keeps-pure P tt)
  Keeps-apply_review_pr id (record_open n url) =
      Keeps-bind P _ _ (rules.update_row id _ (plain _ (λ t. refl) (λ t. refl)) (λ t h. h))
        λ row. Keeps-bind P _ _ (Keeps-or_raise P _ row) (λ _. Keeps-pure P tt)

  pub Keeps-maybe_open_review_pr : (t : Task) → Keeps P (maybe_open_review_pr s t)
  unfolding maybe_open_review_pr
  Keeps-maybe_open_review_pr t = after_check P _ _ λ step. Keeps-apply_review_pr t.id step

  Keeps-merge_unflagged : (t : Task) → Keeps P (merge_unflagged s t)
  unfolding merge_unflagged
  Keeps-merge_unflagged t = elim (Bool-cases (is_some t.assumption_flag)) [
    | inl flagged ↦ rw flagged (Keeps-pure P tt)
    | inr free ↦ rw free (Keeps-bind P _ _ (Keeps-merge t.id) (λ _. Keeps-pure P tt))
  ]

  Keeps-after_approval : (t : Task) (row : Option Task) → Keeps P (after_approval s t row)
  unfolding after_approval
  Keeps-after_approval t none = Keeps-pure P tt
  Keeps-after_approval t (some row) = Keeps-merge_unflagged t

  Keeps-run_auto_step : (t : Task) (step : AutoStep) → Keeps P (run_auto_step s t step)
  unfolding run_auto_step approved_patch
  Keeps-run_auto_step t hold = Keeps-pure P tt
  Keeps-run_auto_step t approve_first =
      Keeps-bind P _ _ (rules.swap_row t.id _ _ (plain _ (λ t. refl) (λ t. refl)) (λ t h. refl))
        (Keeps-after_approval t)
  Keeps-run_auto_step t go_on = Keeps-merge_unflagged t

  pub Keeps-maybe_auto_progress : (t : Task) → Keeps P (maybe_auto_progress s t)
  unfolding maybe_auto_progress
  Keeps-maybe_auto_progress t = Keeps-bind P _ _ (Keeps-gets P _) (Keeps-run_auto_step t)
