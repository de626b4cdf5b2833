-- ===== src/Server.antt =====
-- The leader's upkeep of the bus: asty/internal/server.
pub mod Replicas
pub mod Reaper
pub mod Converged
