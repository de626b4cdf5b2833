-- ===== src/Drainer.antt =====
-- The drain of a node (asty/internal/ops/drainer). The children are its parts.
pub mod Plan
pub mod Waits
pub mod Moves
pub mod Handled
pub mod Account
pub mod Manager
pub mod Lifetime
