-- ===== src/Proximity.antt =====
-- asty/internal/domain/proximity: the latency matrix of the datacenters.
pub mod Matrix
pub mod Order
