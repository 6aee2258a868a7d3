-- ===== src/Handlers/Requests.antt =====
-- `create`, `delete`, `markReady` and `removeDependency`.
use specbook.Base.{ℕ}
use specbook.Action.{Db, ◌>>◌}
use specbook.Action.Keeps.{
  Keeps, Keeps-pure, Keeps-gets, Keeps-or_raise, Keeps-bind, Keeps-then, Keeps-for_each,
  Keeps-raise_if, bind_at, check_at,
}
use specbook.Session.{Session}
use specbook.TaskRepository.{insert_task}
use specbook.TaskService.Edits.{CreateTaskRequest, create, new_task, delete}
use specbook.TaskService.MarkReady.{Scope, mark_ready}
use specbook.TaskService.Dependencies.{remove_dependency}
use specbook.Invariant.Rows.{Fresh}
use specbook.Handlers.{Rules}
use specbook.Handlers.Edits.{after_check, after_guard}

module _ (P : Db → Type 0) (s : Session) (rules : Rules P s) where
  pub create_at :
      (new_id : ℕ) (dto : CreateTaskRequest) (db : Db)
      → Fresh db new_id
      → P db
      → P (create s new_id dto db).1
  unfolding create ◌>>◌
  create_at new_id dto db fresh h = check_at P _ _ db h (λ checked.
      bind_at P (insert_task (new_task s new_id dto)) _ db
        (rules.insert_row new_id dto db fresh checked h)
        (λ _.
          Keeps-then P _ _ (Keeps-for_each P dto.depends_on _ (λ on. rules.add_edge new_id on))
            (Keeps-pure P _)))

  pub Keeps-delete : (id : ℕ) → Keeps P (delete s id)
  unfolding delete
  Keeps-delete id = after_check P _ _ λ current. after_guard P _ _ _ (rules.delete_row id)

  pub Keeps-mark_ready : (project_id : ℕ) (scope : Scope) → Keeps P (mark_ready s project_id scope)
  unfolding mark_ready
  Keeps-mark_ready project_id scope = Keeps-bind P _ _ (Keeps-gets P _) λ found.
      Keeps-bind P _ _ (Keeps-or_raise P _ _) λ proj. after_guard P _ _ _ (
        Keeps-bind P _ _ (Keeps-gets P _) λ rows. Keeps-bind P _ _ (Keeps-gets P _) λ edges.
          Keeps-bind P _ _ (Keeps-or_raise P _ _)
            λ ids. Keeps-bind P _ _ (rules.promote_rows ids) λ promoted. Keeps-pure P _)

  pub Keeps-remove_dependency : (id on : ℕ) → Keeps P (remove_dependency s id on)
  unfolding remove_dependency
  Keeps-remove_dependency id on =
      after_check P _ _
        λ current. Keeps-bind P _ _ (rules.remove_edge id on) (λ removed. Keeps-raise_if P _ _)
