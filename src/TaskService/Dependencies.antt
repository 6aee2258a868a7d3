-- ===== src/TaskService/Dependencies.antt =====
-- `addDependency` and `removeDependency` of apps/api/src/tasks/task.service.ts.
use specbook.Base.{ℕ, not, true}
use specbook.Result.{dependency_not_found}
use specbook.Action.{Action, check, raise_if, ◌>>=◌, ◌>>◌}
use specbook.Session.{Session}
use specbook.TaskRepository.{insert_dependency, delete_dependency}
use specbook.TaskService.Access.{require_task}
use specbook.TaskService.DependencyPlan.{plan_dependency}

-- `addDependency`
unfoldable pub add_dependency : Session → ℕ → ℕ → Action (Unit {0})
add_dependency s id depends_on_task_id = do
  check (plan_dependency s id depends_on_task_id)
  insert_dependency id depends_on_task_id

-- `removeDependency`
unfoldable pub remove_dependency : Session → ℕ → ℕ → Action (Unit {0})
remove_dependency s id depends_on_task_id = do
  _ ← check (require_task s.active_user id true)
  removed ← delete_dependency id depends_on_task_id
  raise_if (not removed) dependency_not_found
