-- ===== src/Dispatch.antt =====
-- The delivery of a session's events to its channels: app/internal/channel/retry.go (Retry),
-- app/internal/dispatch/dispatcher.go (Deliver, Drain), app/internal/dispatch/channel_health.go
-- (Health).
pub mod Retry
pub mod Health
pub mod Deliver
pub mod Drain
pub mod Scenarios
