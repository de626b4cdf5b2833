-- ===== src/Dashboard.antt =====
-- The handlers of the dashboard that change the cluster (asty/internal/api/dashboard).
pub mod Api
pub mod Services
pub mod Nodes
pub mod Audit
pub mod Versions
pub mod Refusals
pub mod Shapes
pub mod Cached
