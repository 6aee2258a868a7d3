-- ===== src/Handlers.antt =====
-- The methods of apps/api/src/tasks/task.service.ts keep a property of the tables if the statements
-- do that they are made of: the statements as an interface, which each property fills once.
pub mod Edits
pub mod Merge
pub mod Transition
pub mod Requests
use specbook.Base.{some, ℕ, ◌≡◌, List}
use specbook.Rows.{Task, TaskComment, Notification, Status, Actor}
use specbook.Action.{Db}
use specbook.Action.Keeps.{Keeps}
use specbook.Session.{Session}
use specbook.TaskRepository.{
  update, cas_update_status, create_comment, create_notification, ack_notes, detach_dependents,
  delete_dependency, delete_task, insert_task, bulk_promote_drafts_to_ready,
}
use specbook.Result.{ok}
use specbook.TaskService.Access.{plan_create}
use specbook.TaskService.Plan.{TransitionRequest, TransitionPlan, status_patch}
use specbook.TaskService.Dependencies.{add_dependency}
use specbook.TaskService.Edits.{CreateTaskRequest, new_task}
use specbook.Invariant.{ClaimOk}
use specbook.Invariant.Statements.{KeepsRow}
use specbook.Invariant.Rows.{Fresh}
use specbook.Invariant.Planned.{Planned}

abbrev pub KeepsClaim : (Task → Task) → Type 0
KeepsClaim f = (t : Task) → ClaimOk t → ClaimOk (f t)

-- The writes of a session's requests. A row update leaves the identity, the project and the claim
-- of a row alone; the swap of a transition, an insert and a new edge may use what was checked.
pub record Rules (P : Db → Type 0) (s : Session) : Type 0 where
  pub update_row :
      (id : ℕ) (f : Task → Task)
      → KeepsRow f
      → KeepsClaim f
      → Keeps P (update s.now id s.active_user.org_id (some f))
  pub swap_row :
      (id : ℕ) (from : Status) (f : Task → Task)
      → KeepsRow f
      → KeepsClaim f
      → Keeps P (cas_update_status s.now id s.active_user.org_id from f)
  pub swap_planned :
      (actor : Actor) (dto : TransitionRequest) (db : Db) (plan : TransitionPlan)
      → Planned s actor dto db plan
      → P db
      → P
          (cas_update_status s.now plan.current.id s.active_user.org_id plan.current.status
            (status_patch s plan.current dto.to)
            db).1
  pub insert_row :
      (new_id : ℕ) (dto : CreateTaskRequest) (db : Db)
      → Fresh db new_id
      → plan_create s.active_user dto.project_id dto.assignee db ≡ ok tt
      → P db
      → P (insert_task (new_task s new_id dto) db).1
  pub delete_row : (id : ℕ) → Keeps P (delete_task id s.active_user.org_id)
  pub promote_rows :
      (ids : List ℕ)
      → Keeps P (bulk_promote_drafts_to_ready s.now s.active_user.org_id ids s.active_user.user_id)
  pub add_edge : (id on : ℕ) → Keeps P (add_dependency s id on)
  pub remove_edge : (id on : ℕ) → Keeps P (delete_dependency id on)
  pub detach_edges : (id : ℕ) (ids : List ℕ) → Keeps P (detach_dependents id ids)
  pub add_comment_row : (k : TaskComment) → Keeps P (create_comment k)
  pub read_notes : (id : ℕ) → Keeps P (ack_notes s.now id s.active_user.org_id)
  pub add_notification : (n : Notification) → Keeps P (create_notification n)
