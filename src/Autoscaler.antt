-- ===== src/Autoscaler.antt =====
-- asty/internal/ops/autoscaler: decisions in Evaluate, their execution in Execute.
pub mod Signals
pub mod Evaluate
pub mod Execute
pub mod Cooling
pub mod Ceiling
pub mod Idle
pub mod Floor
