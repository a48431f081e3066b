-- ===== src/Completion.antt =====
-- Completion: `done_when` predicates and judge verdicts (app/internal/task/donewhen.go).
pub mod Judge
pub mod Leaf
pub mod DoneWhen
mod Scenarios
