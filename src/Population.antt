-- ===== src/Population.antt =====
-- Workflow populations (app/internal/population): which resources should have a session, when to
-- try again, when to give up, and when to tear down.
pub mod Member
pub mod Backoff
pub mod World
pub mod Admit
pub mod Sweep
pub mod Source
mod Scenarios
