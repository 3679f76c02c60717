-- ===== src/Tasks.antt =====
-- packages/core/src/tasks/task-service.ts: the life of a task.
pub mod Cycle
pub mod Rules
pub mod Decide
pub mod Service
pub mod Effects
pub mod Lifecycle
pub mod Invariant
pub mod Guards
