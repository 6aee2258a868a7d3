-- ===== src/TaskRepository/Queue/Available.antt =====
-- What the agent queue guarantees of a task that it serves as available.
use specbook.Base.{
  ℕ, ◌<◌, ◌≡◌, Bool, true, false, not, is_none, Option, [], ◌∷◌, Memᴰ, any, any_elim, any-false,
  count_where, ◌==◌, ◌&&◌, arith,
}
use specbook.Rows.{Task, Dependency, Project, Status, ready, changes_requested, approved, done}
use specbook.Protocol.{
  same_status, same_status_iff, includes, dependency_satisfying_statuses, merge_debt_cap,
}
use specbook.Action.{Db}
use specbook.TaskRepository.Queue.{
  no_unfinished_dependencies, under_merge_debt_cap, is_available, matches, row_matches,
  ListTasksFilter,
}

module _ (db : Db) (t : Task) where
  prerequisites_done :
      no_unfinished_dependencies db t ≡ true
      → (e : Dependency) (d : Task) → Memᴰ e db.dependencies
      → Memᴰ d db.tasks
      → e.task_id ≡ t.id
      → d.id ≡ e.depends_on_task_id
      → d.status ≡ done
  unfolding no_unfinished_dependencies dependency_satisfying_statuses
  prerequisites_done h e d me md src dst =
      let no_edge =
        any-false (λ e. e.task_id == t.id && any (unfinished e) db.tasks) db.dependencies
          (ground (arith, h)) me in
      let no_row = any-false (unfinished e) db.tasks (ground (arith, no_edge, src)) md in
      done_of d.status (ground (arith, no_row, dst))
    where
      unfinished : Dependency → Task → Bool
      unfinished e dep =
          dep.id == e.depends_on_task_id && not (includes dep.status dependency_satisfying_statuses)

      done_of : (s : Status) → includes s dependency_satisfying_statuses ≡ true → s ≡ done
      done_of s h = ground (arith, same_status_iff s done)

  under_cap :
      under_merge_debt_cap db t ≡ true
      → count_where (λ u. u.project_id == t.project_id && same_status u.status approved) db.tasks
        < 3
  unfolding under_merge_debt_cap merge_debt_cap
  under_cap h = ground arith

  available_parts :
      (month_start : ℕ) (p : Project)
      → is_available month_start db p t ≡ true
      → (includes t.status (ready ∷ changes_requested ∷ []) ≡ true)
        × (t.is_human_task ≡ false)
        × (is_none p.archived_at ≡ true)
        × (no_unfinished_dependencies db t ≡ true)
        × (under_merge_debt_cap db t ≡ true)
  unfolding is_available
  available_parts month_start p h =
      (ground arith, ground arith, ground arith, ground arith, ground arith)

-- What an agent may count on when it takes the task.
pub record IsWorkable (db : Db) (org_id : ℕ) (t : Task) : Type 0 where
  pub queued : includes t.status (ready ∷ changes_requested ∷ []) ≡ true
  pub for_agents : t.is_human_task ≡ false
  pub in_live_project :
      (p : Project) × Memᴰ p db.projects
      × (p.id ≡ t.project_id)
      × (p.org_id ≡ org_id)
      × (is_none p.archived_at ≡ true)
  pub all_prerequisites_done :
      (e : Dependency) (d : Task)
      → Memᴰ e db.dependencies
      → Memᴰ d db.tasks
      → e.task_id ≡ t.id
      → d.id ≡ e.depends_on_task_id
      → d.status ≡ done
  pub little_merge_debt :
      count_where (λ u. u.project_id == t.project_id && same_status u.status approved) db.tasks < 3

-- A task that the queue serves as available is queued, meant for agents and in a live project of
-- the organization, every task that it waits for is done, and fewer than three approved tasks of
-- its project wait to be merged.
pub available-IsWorkable :
    (month_start : ℕ) (db : Db) (org_id : ℕ) (f : ListTasksFilter) (restrict : Option ℕ) (t : Task)
    → f.available ≡ true
    → matches month_start db org_id f restrict t ≡ true
    → IsWorkable db org_id t
unfolding matches row_matches
available-IsWorkable month_start db org_id f restrict t wanted h =
    let (p, m, row) = any_elim (row_matches month_start db org_id f restrict t) db.projects h in
    let (queued, agents, live, finished, debt) =
      available_parts db t month_start p (ground (arith, wanted, row)) in
    record {
      queued = queued;
      for_agents = agents;
      in_live_project = (p, m, ground (arith, row), ground (arith, row), live);
      all_prerequisites_done = prerequisites_done db t finished;
      little_merge_debt = under_cap db t debt;
    }
