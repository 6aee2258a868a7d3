-- ===== src/Invariant/Dependencies.antt =====
-- `addDependency` keeps the invariant: the edges of one project, which the
-- cycle check searches, are all the edges that a walk from a task of the project meets.
use specbook.Base.{
  ℕ, ◌≡◌, sym, ◌∙◌, ◌↔◌, Bool, true, false, some, List, Memᴰ, Memᴰ-filter, any_intro, arith,
}
use specbook.Rows.{Task, Dependency}
use specbook.Result.{ok}
use specbook.Action.{Db, ◌>>◌}
use specbook.Action.Keeps.{Keeps, Keeps-check_bind}
use specbook.Session.{Session}
use specbook.TaskRepository.{find_task, find_project_dependency_edges}
use specbook.TaskService.Access.{require_task, scope_for}
use specbook.TaskService.Cycle.{would_cycle}
use specbook.TaskService.Cycle.Reach.{Reaches, here, next, Waits-iff}
use specbook.TaskService.Cycle.Walk.{would_cycle_decides}
use specbook.TaskService.DependencyPlan.{plan_dependency}
use specbook.TaskService.Dependencies.{add_dependency}
use specbook.Invariant.{IsValid}
use specbook.Invariant.Rows.{insert_dependency_at}
use specbook.Invariant.Access.{find_task_row, require_task_row}

-- A task of a project, by its identifier.
abbrev pub IsTaskOf : Db → ℕ → ℕ → Type 0
IsTaskOf db project_id id = (t : Task) × Memᴰ t db.tasks × (t.id ≡ id) × (t.project_id ≡ project_id)

module _ (db : Db) (h : IsValid db) (project_id : ℕ) where
  edge_of_project :
      (e : Dependency)
      → Memᴰ e db.dependencies
      → IsTaskOf db project_id e.task_id
      → Memᴰ e (find_project_dependency_edges db project_id)
  unfolding find_project_dependency_edges
  edge_of_project e m w =
      (Memᴰ-filter _ e db.dependencies).1 (m, any_intro _ db.tasks w.1 (ground (arith, w.2)))

  -- A walk from a task of the project stays in the project.
  pub Reaches-within :
      {u v : ℕ}
      → Reaches db.dependencies u v
      → IsTaskOf db project_id u
      → Reaches (find_project_dependency_edges db project_id) u v × IsTaskOf db project_id v
  Reaches-within here w = (here, w)
  Reaches-within {v = target} (next {v = middle} r x) w =
      let (walk, task) = Reaches-within r w in
      let (e, m, src, dst) = (Waits-iff db.dependencies middle target).0 x in
      let near : IsTaskOf db project_id e.task_id = (task.0, task.1, task.2 ∙ sym src, task.3) in
      let far = h.awaited_known e m in
      (
        next walk ((Waits-iff _ middle target).1 (e, edge_of_project e m near, src, dst)),
        (
          far.0,
          far.1,
          far.2 ∙ dst,
          sym (h.same_project e task.0 far.0 m task.1 far.1 (task.2 ∙ sym src) far.2) ∙ task.3,
        ),
      )

-- What the checks of `addDependency` have established.
pub record PlannedEdge (s : Session) (id on : ℕ) (db : Db) : Type 0 where
  pub dependent : Task
  pub dependency : Task
  pub found : require_task s.active_user id true db ≡ ok dependent
  pub found_far : find_task db on s.active_user.org_id (scope_for s.active_user) ≡ some dependency
  pub one_project : dependent.project_id ≡ dependency.project_id
  pub no_cycle :
      would_cycle (find_project_dependency_edges db dependent.project_id) id on ≡ some false

pub plan_dependency-PlannedEdge :
    (s : Session) (id on : ℕ) (db : Db) {u : Unit {0}}
    → plan_dependency s id on db ≡ ok u
    → PlannedEdge s id on db
unfolding plan_dependency
plan_dependency-PlannedEdge s id on db h = ground arith

-- The search cannot both find nothing and reach its target.
pub not_both :
    {edges : List Dependency} {id on : ℕ}
    → would_cycle edges id on ≡ some false
    → ((b : Bool) × (would_cycle edges id on ≡ some b) × ((b ≡ true) ↔ Reaches edges on id))
    → ¬ Reaches edges on id
not_both none_found d r = let hit = d.2.1 r in let e = d.1 in ground arith

pub Keeps-add_dependency : (s : Session) (id on : ℕ) → Keeps IsValid (add_dependency s id on)
unfolding add_dependency ◌>>◌
Keeps-add_dependency s id on = Keeps-check_bind IsValid _ _ λ db u h e.
    let p = plan_dependency-PlannedEdge s id on db e in
    let near = require_task_row s.active_user id true db p.found in
    let far = find_task_row db on s.active_user.org_id (scope_for s.active_user) p.found_far in
    insert_dependency_at id on db p.dependent p.dependency near.0 far.0 near.1 far.1 p.one_project
      (λ r.
        let walk =
          Reaches-within db h p.dependent.project_id r
            (p.dependency, far.0, far.1, sym p.one_project) in
        not_both p.no_cycle
          (would_cycle_decides (find_project_dependency_edges db p.dependent.project_id) id on)
          walk.0)
      h
