-- ===== src/Scheduler.antt =====
-- asty/internal/ops/scheduler: where the copies of a service are placed.
pub mod Helpers
pub mod Candidates
pub mod Greedy
pub mod Bounds
pub mod Reconcile
pub mod Victims
