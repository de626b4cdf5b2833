-- ===== src/Agent.antt =====
-- The agent of a node (asty/internal/agent): its processes and their records.
pub mod Process
pub mod Restarts
pub mod Peers
pub mod Snapshots
pub mod Tidy
pub mod Capacity
pub mod Heartbeat
pub mod Reported
