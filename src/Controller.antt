-- ===== src/Controller.antt =====
-- The continuous reconcile loop (internal/controller).
pub mod Status
pub mod Metrics
pub mod Waiters
pub mod Verify
pub mod Cycle
