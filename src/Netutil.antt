-- ===== src/Netutil.antt =====
-- The network helpers: asty/internal/core/netutil.
pub mod Origin
pub mod Retry
pub mod Allowed
