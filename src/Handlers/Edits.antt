-- ===== src/Handlers/Edits.antt =====
-- The methods of TaskService/Edits.antt that change one row, or a comment.
use specbook.Base.{ℕ, String, ◌≡◌, refl, Bool, true, false, none, some, if◌then◌else◌, arith}
use specbook.Rows.{Task, Actor, CommentKind, AssumptionFlag}
use specbook.Result.{Result, Error, no_values_to_set}
use specbook.Action.{Db, Action, ◌>>=◌, ◌>>◌, or_raise, check, raise_if}
use specbook.Action.Keeps.{
  Keeps, Keeps-pure, Keeps-raise, Keeps-check, Keeps-or_raise, Keeps-bind, Keeps-then,
  Keeps-raise_if, Keeps-when,
}
use specbook.Session.{Session}
use specbook.TaskRepository.{add_cost, cost_patch, reports_nothing, CostDelta, update}
use specbook.TaskService.Edits.{
  clear_assumption, set_assumption, report_cost, check_criterion, agent_update_spec, update_task,
  UpdateTaskRequest, SpecRequest, shapes_nothing, sets_nothing, add_comment, get_notes,
  update_patch, spec_patch,
}
use specbook.Invariant.{ClaimOk}
use specbook.Handlers.{Rules, KeepsClaim}
use specbook.Invariant.Statements.{KeepsRow}

module _ (P : Db → Type 0) where
  -- A check, or a guard, before an action that keeps the property.
  pub after_check :
      {A B : Type 0} (f : Db → Result A) (g : A → Action B)
      → ((a : A) → Keeps P (g a))
      → Keeps P (check f >>= g)
  after_check f g k = Keeps-bind P (check f) g (Keeps-check P f) k

  pub after_guard :
      {B : Type 0} (b : Bool) (e : Error) (m : Action B) → Keeps P m → Keeps P (raise_if b e >> m)
  after_guard b e m k = Keeps-then P (raise_if b e) m (Keeps-raise_if P b e) k

pub plain :
    (f : Task → Task)
    → ((t : Task) → (f t).id ≡ t.id)
    → ((t : Task) → (f t).project_id ≡ t.project_id)
    → KeepsRow f
plain f same_id same_project = record { same_id = same_id; same_project_id = same_project }

module _ (dto : UpdateTaskRequest) (current : Task) where
  update_patch_id : (t : Task) → (update_patch dto current t).id ≡ t.id
  unfolding update_patch
  update_patch_id t = ground arith

  update_patch_project : (t : Task) → (update_patch dto current t).project_id ≡ t.project_id
  unfolding update_patch
  update_patch_project t = ground arith

  update_patch_claim : (t : Task) → ClaimOk t → ClaimOk (update_patch dto current t)
  unfolding update_patch
  update_patch_claim t h = ground arith

module _ (P : Db → Type 0) (s : Session) (rules : Rules P s) where
  -- An update of one row that leaves its identity, its project and its claim alone.
  pub update_or_fail :
      (id : ℕ) (f : Task → Task) (e : Error)
      → KeepsRow f
      → KeepsClaim f
      → Keeps P (update s.now id s.active_user.org_id (some f) >>= or_raise e)
  update_or_fail id f e k claims =
      Keeps-bind P (update s.now id s.active_user.org_id (some f)) (or_raise e)
        (rules.update_row id f k claims) (λ row. Keeps-or_raise P e row)

  -- The same where the patch may be empty, and the update then throws.
  pub patch_or_fail :
      (b : Bool) (id : ℕ) (f : Task → Task) (e : Error)
      → KeepsRow f
      → KeepsClaim f
      → Keeps P (update s.now id s.active_user.org_id (if b then none else some f) >>= or_raise e)
  unfolding update
  patch_or_fail true id f e k claims =
      Keeps-bind P _ (or_raise e) (Keeps-raise P no_values_to_set) (λ row. Keeps-or_raise P e row)
  patch_or_fail false id f e k claims = update_or_fail id f e k claims

  pub Keeps-clear_assumption : (id : ℕ) → Keeps P (clear_assumption s id)
  unfolding clear_assumption
  Keeps-clear_assumption id =
      after_check P _ _ λ _. update_or_fail id _ _ (plain _ (λ t. refl) (λ t. refl)) (λ t h. h)

  pub Keeps-set_assumption :
      (actor : Actor) (id : ℕ) (flag : AssumptionFlag) → Keeps P (set_assumption s actor id flag)
  unfolding set_assumption
  Keeps-set_assumption actor id flag = after_check P _ _ λ current.
      after_guard P _ _ _
        (after_guard P _ _ _ (update_or_fail id _ _ (plain _ (λ t. refl) (λ t. refl)) (λ t h. h)))

  pub Keeps-check_criterion :
      (id index : ℕ) (done : Bool) → Keeps P (check_criterion s id index done)
  unfolding check_criterion
  Keeps-check_criterion id index done = after_check P _ _ λ current.
      after_guard P _ _ _
        (after_guard P _ _ _ (update_or_fail id _ _ (plain _ (λ t. refl) (λ t. refl)) (λ t h. h)))

  pub Keeps-report_cost : (id : ℕ) (delta : CostDelta) → Keeps P (report_cost s id delta)
  unfolding report_cost add_cost cost_patch
  Keeps-report_cost id delta = after_check P _ _ λ current. after_guard P _ _ _ (
      after_guard P _ _ _
        (patch_or_fail (reports_nothing delta) id _ _ (plain _ (λ t. refl) (λ t. refl)) (λ t h. h)))

  pub Keeps-agent_update_spec : (dto : SpecRequest) → Keeps P (agent_update_spec s dto)
  unfolding agent_update_spec spec_patch
  Keeps-agent_update_spec dto = after_check P _ _ λ current.
      after_guard P _ _ _
        (patch_or_fail (shapes_nothing dto) dto.id _ _ (plain _ (λ t. refl) (λ t. refl)) (λ t h. h))

  pub Keeps-update_task :
      (actor : Actor) (dto : UpdateTaskRequest) → Keeps P (update_task s actor dto)
  unfolding update_task
  Keeps-update_task actor dto = after_check P _ _ λ current. after_guard P _ _ _ (
      Keeps-then P _ _ (Keeps-check P _) (
        Keeps-then P _ _ (Keeps-when P _ _ (λ _. rules.add_comment_row _)) (
          patch_or_fail (sets_nothing dto) dto.id (update_patch dto current) _
            (plain _ (update_patch_id dto current) (update_patch_project dto current))
            (update_patch_claim dto current))))

  pub Keeps-add_comment :
      (actor : Actor) (id : ℕ) (kind : CommentKind) (body : String)
      → Keeps P (add_comment s actor id kind body)
  unfolding add_comment
  Keeps-add_comment actor id kind body = after_check P _ _ λ current.
      after_guard P _ _ _
        (after_guard P _ _ _ (Keeps-then P _ _ (rules.add_comment_row _) (Keeps-pure P _)))

  pub Keeps-get_notes : (id : ℕ) → Keeps P (get_notes s id)
  unfolding get_notes
  Keeps-get_notes id = after_check P _ _ λ current. after_guard P _ _ _ (rules.read_notes id)
