-- ===== src/Workflow/Failure.antt =====
-- What a transition that throws leaves behind.
use specbook.Base.{◌≡◌, refl, sym, ap, ◌∙◌, ◌⊎◌, inl, inr}
use specbook.Rows.{Task, TaskComment, Actor, Status}
use specbook.Result.{Error, Result, err, database_error}
use specbook.Action.{Db}
use specbook.Action.Runs.{check_cases}
use specbook.Action.Throws.{
  Throws, Throws-pure, Throws-modify, Throws-attempt, Throws-raise_if, Throws-gets, Throws-then,
  Throws-when, Throws-for_each,
}
use specbook.Session.{Session}
use specbook.TaskRepository.{create_comment, detach_dependents}
use specbook.TaskService.Plan.{TransitionRequest, TransitionPlan, plan_transition}
use specbook.TaskService.Transition.{
  late_comment, tell_dependent, detach_cancelled_dependents, after_swap, commit_transition,
  transition,
}
use specbook.Workflow.Outcome.{commit_cases, won, lost}

abbrev IsDatabase : Error → Type 0
IsDatabase e = e ≡ database_error

Throws-late_comment : (s : Session) (k : TaskComment) → Throws IsDatabase (late_comment s k)
unfolding late_comment create_comment
Throws-late_comment s k =
    Throws-then IsDatabase _ _ (Throws-raise_if IsDatabase _ _ refl) (Throws-modify IsDatabase _)

Throws-detach :
    (s : Session) (actor : Actor) (t : Task)
    → Throws IsDatabase (detach_cancelled_dependents s actor t)
unfolding detach_cancelled_dependents tell_dependent detach_dependents
Throws-detach s actor t = Throws-then IsDatabase _ _ (Throws-raise_if IsDatabase _ _ refl) (
    Throws-gets IsDatabase _ _ λ dependents.
      Throws-then IsDatabase _ _ (Throws-raise_if IsDatabase _ _ refl) (
        Throws-then IsDatabase _ _ (Throws-modify IsDatabase _)
          (Throws-for_each IsDatabase dependents _ (λ d. Throws-late_comment s _))))

Throws-after_swap :
    (s : Session) (actor : Actor) (to : Status) (plan : TransitionPlan) (t : Task)
    → Throws IsDatabase (after_swap s actor to plan t)
unfolding after_swap
Throws-after_swap s actor to plan t =
    Throws-then IsDatabase _ _ (Throws-when IsDatabase _ _ (Throws-late_comment s _)) (
      Throws-then IsDatabase _ _ (Throws-when IsDatabase _ _ (Throws-detach s actor t)) (
        Throws-then IsDatabase _ _ (Throws-when IsDatabase _ _ (Throws-attempt IsDatabase _)) (
          Throws-then IsDatabase _ _ (Throws-when IsDatabase _ _ (Throws-attempt IsDatabase _)) (
            Throws-then IsDatabase _ _ (Throws-when IsDatabase _ _ (Throws-attempt IsDatabase _))
              (Throws-pure IsDatabase t)))))

commit_err :
    (s : Session) (actor : Actor) (to : Status) (plan : TransitionPlan) (db : Db) {e : Error}
    → (commit_transition s actor to plan db).0 ≡ err e
    → ((commit_transition s actor to plan db).1 ≡ db) ⊎ (e ≡ database_error)
commit_err s actor to plan db {e} h = elim (commit_cases s actor to plan db) [
  | won row m same old run ↦ inr (
      (Throws-after_swap s actor to plan _).at _ e
        (sym (ap (λ (r : Result Task × Db). r.0) run) ∙ h))
  | lost none_hit run ↦ inl (ap (λ (r : Result Task × Db). r.1) run)
]

-- A transition that throws has written nothing, wherever it stopped, unless what it throws is the
-- failure of a statement of the database after its swap.
pub transition_err :
    (s : Session) (actor : Actor) (dto : TransitionRequest) (db : Db) {e : Error}
    → (transition s actor dto db).0 ≡ err e
    → ((transition s actor dto db).1 ≡ db) ⊎ (e ≡ database_error)
unfolding transition
transition_err s actor dto db h =
    elim (check_cases (plan_transition s actor dto) (commit_transition s actor dto.to) db) [
      | inl (x, _, run) ↦ inl (ap (λ (r : Result Task × Db). r.1) run)
      | inr (plan, _, run) ↦
          elim (commit_err s actor dto.to plan db
            (sym (ap (λ (r : Result Task × Db). r.0) run) ∙ h)) [
              | inl same ↦ inl (ap (λ (r : Result Task × Db). r.1) run ∙ same)
              | inr failed ↦ inr failed
            ]
    ]
