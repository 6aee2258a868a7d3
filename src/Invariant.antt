-- ===== src/Invariant.antt =====
-- What holds of the tables between two requests: the claims, the foreign keys and the dependency
-- graph; and the rules by which the statements of TaskRepository.antt keep it.
pub mod Statements
pub mod Rows
pub mod Access
pub mod Planned
pub mod Transition
pub mod Dependencies
pub mod Valid
pub mod Check
use specbook.Base.{ℕ, ◌≡◌, Bool, true, Option, is_some, is_none, List, Memᴰ}
use specbook.Rows.{Task, Dependency, Status, draft, ready, in_progress, blocked}
use specbook.Action.{Db}
use specbook.TaskService.Cycle.Acyclic.{Acyclic}

-- Work that is under way has a claimant, and work that is not dispatched or waits in the queue has
-- none.
abbrev pub claim_ok : Status → Option ℕ → Bool
claim_ok draft claim = is_none claim
claim_ok ready claim = is_none claim
claim_ok in_progress claim = is_some claim
claim_ok blocked claim = is_some claim
claim_ok _ claim = true

abbrev pub ClaimOk : Task → Type 0
ClaimOk t = claim_ok t.status t.claimed_by ≡ true

pub record IsValid (db : Db) : Type 0 where
  pub unique : (a b : Task) → Memᴰ a db.tasks → Memᴰ b db.tasks → a.id ≡ b.id → a ≡ b
  pub claimed : (t : Task) → Memᴰ t db.tasks → ClaimOk t
  -- The foreign keys of task_dependency.
  pub waiting_known :
      (e : Dependency) → Memᴰ e db.dependencies → (t : Task) × Memᴰ t db.tasks × (t.id ≡ e.task_id)
  pub awaited_known :
      (e : Dependency)
      → Memᴰ e db.dependencies
      → (t : Task) × Memᴰ t db.tasks × (t.id ≡ e.depends_on_task_id)
  pub same_project :
      (e : Dependency) (a b : Task)
      → Memᴰ e db.dependencies
      → Memᴰ a db.tasks
      → Memᴰ b db.tasks
      → a.id ≡ e.task_id
      → b.id ≡ e.depends_on_task_id
      → a.project_id ≡ b.project_id
  pub acyclic : Acyclic db.dependencies
