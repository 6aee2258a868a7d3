-- ===== src/ProjectRepository.antt =====
-- apps/api/src/tasks/project.repository.ts and project-member.repository.ts: which projects a
-- session sees, and who may hold a task of a project.
use specbook.Base.{ℕ, Bool, true, false, Option, none, some, any, find?, ◌==◌, ◌&&◌, ◌||◌}
use specbook.Rows.{Project, OrgRole, owner, admin, member}
use specbook.Action.{Db}

-- The subquery of `memberScope`: a restricted member needs a grant on the project.
unfoldable pub member_scope : Db → Option ℕ → ℕ → Bool
member_scope db none project_id = true
member_scope db (some user_id) project_id =
    any (λ pm. pm.project_id == project_id && pm.user_id == user_id) db.project_members

-- ProjectRepository.findById
unfoldable pub find_project : Db → ℕ → ℕ → Option ℕ → Option Project
find_project db id org_id restrict =
    find? (λ p. p.id == id && p.org_id == org_id && member_scope db restrict p.id) db.projects

-- `project_id IN (SELECT id FROM project WHERE org_id = …)`, `orgGuard` of TaskRepository.
unfoldable pub org_guard : Db → ℕ → ℕ → Bool
org_guard db org_id project_id = any (λ p. p.id == project_id && p.org_id == org_id) db.projects

-- ProjectMemberRepository.isOrgMember
unfoldable pub is_org_member : Db → ℕ → ℕ → Bool
is_org_member db org_id user_id =
    any (λ m. m.org_id == org_id && m.user_id == user_id) db.organization_users

abbrev is_elevated : OrgRole → Bool
is_elevated owner = true
is_elevated admin = true
is_elevated member = false

-- ProjectMemberRepository.canAccessProject
unfoldable pub can_access_project : Db → ℕ → ℕ → ℕ → Bool
can_access_project db org_id project_id user_id =
    any (λ m. m.org_id == org_id && m.user_id == user_id && is_elevated m.role)
      db.organization_users
    || any (λ pm. pm.org_id == org_id && pm.project_id == project_id && pm.user_id == user_id)
        db.project_members
