-- ===== src/Workflow.antt =====
-- What the workflow of a task guarantees, across the methods of
-- apps/api/src/tasks/task.service.ts.
pub mod Outcome
pub mod Claims
pub mod Failure
pub mod Actors
pub mod Race
pub mod Cancel
pub mod Bookkeeping
pub mod MergeGate
pub mod Automation
