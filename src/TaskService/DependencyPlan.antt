-- ===== src/TaskService/DependencyPlan.antt =====
-- The checks of `addDependency` of apps/api/src/tasks/task.service.ts.
use specbook.Base.{ℕ, true, ◌==◌, not}
use specbook.Result.{
  Result, ◌>>=◌, ◌>>◌, fail_if, or_fail, dependency_not_found, dependency_same_project,
  dependency_cycle, out_of_fuel,
}
use specbook.Action.{Db}
use specbook.Session.{Session}
use specbook.TaskRepository.{find_task, find_project_dependency_edges}
use specbook.TaskService.Access.{scope_for, require_task}
use specbook.TaskService.Cycle.{would_cycle}

unfoldable pub plan_dependency : Session → ℕ → ℕ → Db → Result (Unit {0})
plan_dependency s id depends_on_task_id db = do
  dependent ← require_task s.active_user id true db
  dependency ←
      or_fail dependency_not_found
        (find_task db depends_on_task_id s.active_user.org_id (scope_for s.active_user))
  fail_if (not (dependent.project_id == dependency.project_id)) dependency_same_project
  fail_if (id == depends_on_task_id) dependency_cycle
  cyclic ←
      or_fail out_of_fuel
        (would_cycle (find_project_dependency_edges db dependent.project_id) id depends_on_task_id)
  fail_if cyclic dependency_cycle
