-- ===== src/Leader.antt =====
-- asty/internal/ops/leader: the election by a lease in a one-key bucket. The campaign is in Campaign,
-- the cache of the leader's identity in Cache, the nodes of a cluster that campaign together in
-- Cluster.
pub mod Campaign
pub mod Cache
pub mod Cluster
pub mod Fencing
