-- ===== src/Task.antt =====
-- The task graph of a session (app/internal/task): compiled nodes, their order, their life.
pub mod Node
pub mod Sort
pub mod Plan
mod Scenarios
