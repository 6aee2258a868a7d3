-- ===== src/Workflow/Automation.antt =====
-- What the automation may do on its own: `maybeAutoProgress` and `maybeOpenReviewPr` of
-- apps/api/src/tasks/task.service.ts.
use specbook.Base.{
  ◌⊎◌, ◌≡◌, refl, sym, ap, ◌∙◌, true, false, ◌&&◌, Option, none, some, is_some, Memᴰ,
  Memᴰ-set_where, Bool-cases, inl, inr, set_where, ◌==◌, List, arith,
}
use mathlib.Core.Path.{subst}
use specbook.Rows.{
  Task, Project, auto_merge, auto, autonomous, needs_review, approved, done, passing,
}
use specbook.Protocol.{same_status}
use specbook.Action.Keeps.{Keeps}
use specbook.Result.{Result, ok}
use specbook.Action.{Db, pure, gets, check, ◌>>=◌, resume}
use specbook.Session.{Session}
use specbook.ProjectRepository.{find_project, org_guard}
use specbook.TaskRepository.{cas_update_status, update_where, stamp}
use specbook.TaskService.PrPlan.{opens_review_pr, plan_review_pr, leave}
use specbook.TaskService.Merge.{
  AutoStep, hold, approve_first, go_on, auto_step, run_auto_step, maybe_auto_progress,
  merge_unflagged, approved_patch, after_approval, maybe_open_review_pr, apply_review_pr,
}

-- What a task and its project must be for the automation to act: the task an agent's, with passing
-- CI, and the project not paused.
pub record IsTrusted (s : Session) (t : Task) (db : Db) : Type 0 where
  pub for_agents : t.is_human_task ≡ false
  pub green : t.ci_state ≡ some passing
  pub owner : Project
  pub found : find_project db t.project_id s.active_user.org_id none ≡ some owner
  pub not_paused : owner.auto_paused_at ≡ none
  pub grants : (owner.mode ≡ auto_merge) ⊎ ((owner.mode ≡ auto) ⊎ (owner.mode ≡ autonomous))

-- The same for an approval, which not every mode that merges grants.
pub record MayApprove (s : Session) (t : Task) (db : Db) : Type 0 where
  pub trusted : IsTrusted s t db
  pub in_review : t.status ≡ needs_review
  pub approves : (trusted.owner.mode ≡ auto) ⊎ (trusted.owner.mode ≡ autonomous)

-- What the automation may have made of a row: it is as it was, or it is the task, approved or done.
pub data AutoRow (s : Session) (t : Task) (start : Db) (u : Task) : Type 0 where
  as_it_was : Memᴰ u start.tasks → AutoRow s t start u
  newly_approved : u.id ≡ t.id → u.status ≡ approved → MayApprove s t start → AutoRow s t start u
  newly_done :
      u.id ≡ t.id
      → u.status ≡ done
      → IsTrusted s t start
      → (t.status ≡ approved) ⊎ MayApprove s t start
      → t.assumption_flag ≡ none
      → AutoRow s t start u

-- The automation's writes, each allowed by what was read before them.
module _ (s : Session) (t : Task) (start : Db) where
  abbrev AutoRows : Db → Type 0
  AutoRows db = (u : Task) → Memᴰ u db.tasks → AutoRow s t start u

module _ (s : Session) (t : Task) (flag : is_some t.assumption_flag ≡ true) where
  flagged_stops : (db : Db) → merge_unflagged s t db ≡ (ok tt, db)
  unfolding merge_unflagged pure
  flagged_stops db = rw flag refl

  approved_stops : (row : Option Task) (db : Db) → after_approval s t row db ≡ (ok tt, db)
  unfolding after_approval pure
  approved_stops none db = refl
  approved_stops (some row) db = flagged_stops db

  approved_rows : Db → List Task
  approved_rows db =
      set_where
        (λ u.
          u.id == t.id
          && same_status u.status needs_review
          && org_guard db s.active_user.org_id u.project_id)
        (stamp s.now (approved_patch s.now)) db.tasks

  approve_leaves : (db : Db) → (run_auto_step s t approve_first db).1.tasks ≡ approved_rows db
  unfolding run_auto_step cas_update_status update_where ◌>>=◌ resume pure approved_rows
  approve_leaves db = ap (λ (r : Result (Unit {0}) × Db). r.1.tasks) (approved_stops _ _)

  not_yet_done :
      (db : Db) (u : Task) → Memᴰ u (approved_rows db) → u.status ≡ done → Memᴰ u db.tasks
  unfolding approved_rows stamp approved_patch
  not_yet_done db u m e =
      let (x, at, made) = Memᴰ-set_where _ (stamp s.now (approved_patch s.now)) u db.tasks m in
      elim (Bool-cases (
        x.id == t.id
        && same_status x.status needs_review
        && org_guard db s.active_user.org_id x.project_id)) [
          | inl hit ↦ absurd (ground (arith, made, hit, e))
          | inr miss ↦ subst (λ u. Memᴰ u db.tasks) (sym (made ∙ rw miss refl)) at
        ]

  -- The automation never merges a task that carries an assumption flag: every task that is done
  -- afterwards was done before.
  pub flagged_is_not_merged :
      (db : Db) (u : Task)
      → Memᴰ u (maybe_auto_progress s t db).1.tasks
      → u.status ≡ done
      → Memᴰ u db.tasks
  unfolding maybe_auto_progress ◌>>=◌ resume gets run_auto_step pure
  flagged_is_not_merged db u m e = by_step (auto_step s t db) m
    where
      by_step : (step : AutoStep) → Memᴰ u (run_auto_step s t step db).1.tasks → Memᴰ u db.tasks
      by_step hold m = m
      by_step go_on m =
          subst (λ (r : Result (Unit {0}) × Db). Memᴰ u r.1.tasks) (flagged_stops db) m
      by_step approve_first m =
          not_yet_done db u (subst (λ rows. Memᴰ u rows) (approve_leaves db) m) e

leaves :
    (s : Session) (t : Task) (db : Db) (p : Project)
    → find_project db t.project_id s.active_user.org_id none ≡ some p
    → p.mode ≡ autonomous
    → plan_review_pr s t db ≡ ok leave
unfolding plan_review_pr opens_review_pr
leaves s t db p found mode = ground (arith, found, mode)

-- In an autonomous project the review hand-off opens no pull request, whatever the task.
pub autonomous_opens_no_pr :
    (s : Session) (t : Task) (db : Db) (p : Project)
    → find_project db t.project_id s.active_user.org_id none ≡ some p
    → p.mode ≡ autonomous
    → maybe_open_review_pr s t db ≡ (ok tt, db)
unfolding maybe_open_review_pr ◌>>=◌ resume check apply_review_pr pure
autonomous_opens_no_pr s t db p found mode =
    ap (λ r. resume (apply_review_pr s t.id) (r, db)) (leaves s t db p found mode)
