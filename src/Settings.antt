-- ===== src/Settings.antt =====
-- The configuration file's sections, their validation and their defaults (asty/internal/core/config).
pub mod Schema
pub mod Validate
pub mod Defaults
pub mod Env
pub mod Load
pub mod Overrides
pub mod Precedence
pub mod Reachable
pub mod Accepted
