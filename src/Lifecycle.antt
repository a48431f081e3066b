-- ===== src/Lifecycle.antt =====
-- The lifecycle of a plan's nodes: setup, liveness and cleanup (app/internal/task/task.go and
-- app/internal/task/liveness.go).
pub mod Record
pub mod Dependents
pub mod Cleanup
pub mod Setup
mod Scenarios
