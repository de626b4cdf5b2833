-- ===== src/Gateway.antt =====
-- The gateway: asty/internal/api/gateway.
pub mod Limiter
pub mod Routing
pub mod Subjects
