-- ===== src/TaskService.antt =====
-- apps/api/src/tasks/task.service.ts. A method first reads and checks, in the `Result` monad over
-- the database that it reads, and then writes, in the `Action` monad.
pub mod Access
pub mod Repo
pub mod Plan
pub mod PrPlan
pub mod Merge
pub mod Transition
pub mod Cycle
pub mod DependencyPlan
pub mod Dependencies
pub mod Edits
pub mod MarkReady
