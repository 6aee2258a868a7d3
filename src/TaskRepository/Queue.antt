-- ===== src/TaskRepository/Queue.antt =====
-- The agent queue: `findForOrg` of apps/api/src/tasks/task.repository.ts, with its predicates.
pub mod Listing
pub mod Available
use specbook.Base.{
  ℕ, ◌+◌, Bool, true, false, Option, none, some, List, [], ◌∷◌, any, filter, length, take, drop,
  count_where, ltb, leb, ◌==◌, ◌&&◌, ◌||◌, not, is_none, is_some, or_else, holds, if◌then◌else◌,
}
use specbook.Rows.{Task, Project, Status, ready, in_progress, approved, changes_requested, manual}
use specbook.Protocol.{
  same_status, same_mode, includes, dependency_satisfying_statuses, merge_debt_cap,
}
use specbook.Action.{Db}
use specbook.ProjectRepository.{member_scope}

-- TaskRepository.noUnfinishedDependencies: no prerequisite has another status than a satisfying one.
unfoldable pub no_unfinished_dependencies : Db → Task → Bool
no_unfinished_dependencies db t = not (
    any
      (λ d.
        d.task_id == t.id
        && any
            (λ dep.
              dep.id == d.depends_on_task_id
              && not (includes dep.status dependency_satisfying_statuses))
            db.tasks)
      db.dependencies)

abbrev pub reaches_cap : Option ℕ → ℕ → Bool
reaches_cap none n = false
reaches_cap (some cap) n = leb cap n

-- TaskRepository.underProjectThrottles
unfoldable pub under_project_throttles : Db → Task → Bool
under_project_throttles db t = not (
    any
      (λ p.
        p.id == t.project_id
        && (reaches_cap p.max_parallel
              (count_where (λ u. u.project_id == p.id && same_status u.status in_progress) db.tasks)
            || (not (same_mode p.mode manual) && is_some p.auto_paused_at)))
      db.projects)

-- TaskRepository.underMergeDebtCap
unfoldable pub under_merge_debt_cap : Db → Task → Bool
under_merge_debt_cap db t = not (
    leb merge_debt_cap
      (count_where (λ u. u.project_id == t.project_id && same_status u.status approved) db.tasks))

-- The month's spend of a project. `month_start` is `date_trunc('month', now())` of the database.
unfoldable pub month_spend : ℕ → ℕ → List Task → ℕ
month_spend month_start project_id [] = 0
month_spend month_start project_id (u ∷ rest) =
    (if u.project_id == project_id && leb month_start (or_else u.status_changed_at u.created_at)
      then or_else u.cost_usd_cents 0
      else 0)
    + month_spend month_start project_id rest

-- TaskRepository.underBudgetCap
unfoldable pub under_budget_cap : ℕ → Db → Task → Bool
under_budget_cap month_start db t = not (
    any
      (λ p.
        p.id == t.project_id
        && reaches_cap p.budget_usd_cents (month_spend month_start p.id db.tasks))
      db.projects)

-- ListTasksFilter
pub record ListTasksFilter : Type 0 where
  pub skip : ℕ
  pub limit : ℕ
  pub project_id : Option ℕ
  pub status : Option Status
  pub available : Bool
  pub assignee_id : Option ℕ

abbrev matches_id : Option ℕ → ℕ → Bool
matches_id none n = true
matches_id (some m) n = n == m

abbrev matches_status : Option Status → Status → Bool
matches_status none s = true
matches_status (some t) s = same_status s t

abbrev matches_assignee : Option ℕ → Option ℕ → Bool
matches_assignee none a = true
matches_assignee (some m) a = holds a m

-- The conditions that `available` adds.
unfoldable pub is_available : ℕ → Db → Project → Task → Bool
is_available month_start db p t =
    includes t.status (ready ∷ changes_requested ∷ [])
    && not t.is_human_task
    && is_none p.archived_at
    && no_unfinished_dependencies db t
    && under_merge_debt_cap db t
    && under_project_throttles db t
    && under_budget_cap month_start db t

-- The conditions of one row of `task JOIN project`.
unfoldable pub row_matches : ℕ → Db → ℕ → ListTasksFilter → Option ℕ → Task → Project → Bool
row_matches month_start db org_id f restrict t p =
    p.id == t.project_id
    && p.org_id == org_id
    && matches_id f.project_id t.project_id
    && matches_status f.status t.status
    && matches_assignee f.assignee_id t.assignee
    && member_scope db restrict t.project_id
    && (not f.available || is_available month_start db p t)

unfoldable pub matches : ℕ → Db → ℕ → ListTasksFilter → Option ℕ → Task → Bool
matches month_start db org_id f restrict t =
    any (row_matches month_start db org_id f restrict t) db.projects

-- ORDER BY priority DESC, created_at ASC
unfoldable pub precedes : Task → Task → Bool
precedes t u =
    ltb u.priority t.priority || (t.priority == u.priority && leb t.created_at u.created_at)

unfoldable pub insert_ordered : Task → List Task → List Task
insert_ordered t [] = t ∷ []
insert_ordered t (u ∷ rest) = if precedes t u then t ∷ u ∷ rest else u ∷ insert_ordered t rest

unfoldable pub order : List Task → List Task
unfolding insert_ordered
order [] = []
order (t ∷ rest) = insert_ordered t (order rest)

pub record Page : Type 0 where
  pub rows : List Task
  pub total : ℕ

-- TaskRepository.findForOrg
unfoldable pub find_for_org : ℕ → Db → ℕ → ListTasksFilter → Option ℕ → Page
find_for_org month_start db org_id f restrict =
    let found = filter (matches month_start db org_id f restrict) db.tasks in
    record { rows = take f.limit (drop f.skip (order found)); total = length found }
