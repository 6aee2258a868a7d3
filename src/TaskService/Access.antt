-- ===== src/TaskService/Access.antt =====
-- Who may reach a task: `scopeFor`, `requireTask` and `assertAssignableToProject` of
-- apps/api/src/tasks/task.service.ts, and packages/contracts/src/permissions/access.ts.
use specbook.Base.{ℕ, Bool, true, false, Option, none, some, is_some, not, ◌&&◌, if◌then◌else◌}
use specbook.Rows.{Task, Project, ActiveUser, OrgRole, member}
use specbook.Result.{
  Result, ok, ◌>>=◌, ◌>>◌, fail_if, or_fail, not_found, project_not_found,
  project_archived_readonly, assignee_not_member, assignee_not_project_member,
}
use specbook.Action.{Db}
use specbook.ProjectRepository.{find_project, is_org_member, can_access_project}
use specbook.TaskRepository.{find_task}

abbrev is_member : OrgRole → Bool
is_member member = true
is_member _ = false

-- isProjectScopedIdentity
unfoldable pub is_project_scoped_identity : ActiveUser → Bool
is_project_scoped_identity u = is_member u.org_role && not u.is_agent

-- `scopeFor`
unfoldable pub scope_for : ActiveUser → Option ℕ
unfolding is_project_scoped_identity
scope_for u = if is_project_scoped_identity u then some u.user_id else none

-- `!!owner?.archivedAt`
abbrev pub is_archived : Option Project → Bool
is_archived none = false
is_archived (some p) = is_some p.archived_at

-- `requireTask`
unfoldable pub require_task : ActiveUser → ℕ → Bool → Db → Result Task
unfolding scope_for
require_task u id mutating db = do
  let restrict = scope_for u
  found ← or_fail not_found (find_task db id u.org_id restrict)
  fail_if (mutating && is_archived (find_project db found.project_id u.org_id restrict))
      project_archived_readonly
  ok found

-- `assertAssignableToProject`
unfoldable pub assert_assignable_to_project : ℕ → ℕ → ℕ → Db → Result (Unit {0})
assert_assignable_to_project org_id project_id user_id db = do
  fail_if (not (is_org_member db org_id user_id)) assignee_not_member
  fail_if (not (can_access_project db org_id project_id user_id)) assignee_not_project_member

-- The assignment gate, where the request names an assignee.
unfoldable pub assign_gate : ℕ → ℕ → Option ℕ → Db → Result (Unit {0})
unfolding assert_assignable_to_project
assign_gate org_id project_id none db = ok tt
assign_gate org_id project_id (some user_id) db =
    assert_assignable_to_project org_id project_id user_id db

-- The checks of `create`: the project is visible and live, and the assignee may see it.
unfoldable pub plan_create : ActiveUser → ℕ → Option ℕ → Db → Result (Unit {0})
unfolding scope_for
plan_create u project_id assignee db = do
  owner ← or_fail project_not_found (find_project db project_id u.org_id (scope_for u))
  fail_if (is_some owner.archived_at) project_archived_readonly
  assign_gate u.org_id project_id assignee db
