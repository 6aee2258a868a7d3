-- ===== src/Handlers/Transition.antt =====
-- `transition` and what follows it.
use specbook.Base.{Option, String}
use specbook.Rows.{Task, TaskComment, Actor, Status}
use specbook.Action.{Db}
use specbook.Action.Keeps.{
  Keeps, Keeps-pure, Keeps-gets, Keeps-or_raise, Keeps-bind, Keeps-then, Keeps-when, Keeps-attempt,
  Keeps-for_each, Keeps-check_bind, Keeps-raise_if, bind_at,
}
use specbook.Session.{Session}
use specbook.TaskService.Plan.{TransitionRequest, TransitionPlan}
use specbook.TaskService.Transition.{
  late_comment, tell_dependent, detach_cancelled_dependents, notify_court, after_swap,
  commit_transition, transition,
}
use specbook.Invariant.Planned.{plan_transition-Planned}
use specbook.Handlers.{Rules}
use specbook.Handlers.Merge.{Keeps-maybe_open_review_pr, Keeps-maybe_auto_progress}

module _ (P : Db → Type 0) (s : Session) (rules : Rules P s) where
  Keeps-late_comment : (k : TaskComment) → Keeps P (late_comment s k)
  unfolding late_comment
  Keeps-late_comment k = Keeps-then P _ _ (Keeps-raise_if P _ _) (rules.add_comment_row k)

  Keeps-detach_cancelled :
      (actor : Actor) (t : Task) → Keeps P (detach_cancelled_dependents s actor t)
  unfolding detach_cancelled_dependents tell_dependent
  Keeps-detach_cancelled actor t = Keeps-then P _ _ (Keeps-raise_if P _ _) (
      Keeps-bind P _ _ (Keeps-gets P _) λ dependents. Keeps-then P _ _ (Keeps-raise_if P _ _) (
        Keeps-then P _ _ (rules.detach_edges t.id _)
          (Keeps-for_each P dependents _ (λ d. Keeps-late_comment _))))

  Keeps-notify_court :
      (t : Task) (to : Status) (comment : Option String) → Keeps P (notify_court s t to comment)
  unfolding notify_court
  Keeps-notify_court t to comment =
      Keeps-bind P _ _ (Keeps-gets P _)
        λ members. Keeps-for_each P _ _ (λ m. rules.add_notification _)

  pub Keeps-after_swap :
      (actor : Actor) (to : Status) (plan : TransitionPlan) (t : Task)
      → Keeps P (after_swap s actor to plan t)
  unfolding after_swap
  Keeps-after_swap actor to plan t =
      Keeps-then P _ _ (Keeps-when P _ _ (λ _. Keeps-late_comment _)) (
        Keeps-then P _ _ (Keeps-when P _ _ (λ _. Keeps-detach_cancelled actor t)) (
          Keeps-then P _ _
            (Keeps-when P _ _ (λ _. Keeps-attempt P _ (Keeps-notify_court t to plan.comment)))
            (Keeps-then P _ _
              (Keeps-when P _ _ (λ _. Keeps-attempt P _ (Keeps-maybe_open_review_pr P s rules t)))
              (Keeps-then P _ _
                (Keeps-when P _ _ (λ _. Keeps-attempt P _ (Keeps-maybe_auto_progress P s rules t)))
                (Keeps-pure P t)))))

  pub Keeps-transition :
      (actor : Actor) (dto : TransitionRequest) → Keeps P (transition s actor dto)
  unfolding transition commit_transition
  Keeps-transition actor dto = Keeps-check_bind P _ _ λ db plan h e.
      let p = plan_transition-Planned s actor dto db plan e in
      bind_at P _ _ db (rules.swap_planned actor dto db plan p h)
        (λ row. Keeps-bind P _ _ (Keeps-or_raise P _ row) (Keeps-after_swap actor dto.to plan))
