-- ===== src/Invariant/Access.antt =====
-- What a check of a task has found: the row that it names.
use specbook.Base.{ℕ, ◌≡◌, Bool, true, Option, some, Memᴰ, find?-some, arith}
use specbook.Rows.{Task, ActiveUser}
use specbook.Result.{ok}
use specbook.Action.{Db}
use specbook.TaskRepository.{find_task}
use specbook.ProjectRepository.{org_guard, member_scope}
use specbook.TaskService.Access.{require_task, scope_for}

-- The row that `find_task` returns.
pub find_task_row :
    (db : Db) (id org_id : ℕ) (restrict : Option ℕ) {t : Task}
    → find_task db id org_id restrict ≡ some t
    → Memᴰ t db.tasks
      × (t.id ≡ id)
      × (org_guard db org_id t.project_id ≡ true)
      × (member_scope db restrict t.project_id ≡ true)
unfolding find_task
find_task_row db id org_id restrict {t} h =
    let (m, passes) = find?-some _ db.tasks h in (m, ground arith, ground arith, ground arith)

pub require_task_found :
    (u : ActiveUser) (id : ℕ) (mutating : Bool) (db : Db) {t : Task}
    → require_task u id mutating db ≡ ok t
    → find_task db id u.org_id (scope_for u) ≡ some t
unfolding require_task
require_task_found u id mutating db h = ground arith

pub require_task_row :
    (u : ActiveUser) (id : ℕ) (mutating : Bool) (db : Db) {t : Task}
    → require_task u id mutating db ≡ ok t
    → Memᴰ t db.tasks × (t.id ≡ id)
require_task_row u id mutating db h =
    let row = find_task_row db id u.org_id (scope_for u) (require_task_found u id mutating db h) in
    (row.0, row.1)
