-- ===== src/Artifact.antt =====
-- The download and the extraction of a service's artifact (asty/internal/infra/artifact).
pub mod Paths
pub mod Extract
pub mod Download
pub mod Contained
pub mod Verified
