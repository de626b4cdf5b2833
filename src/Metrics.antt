-- ===== src/Metrics.antt =====
-- The store of samples and scaling events: asty/internal/ops/autoscaler/metrics.
pub mod Store
pub mod Queries
