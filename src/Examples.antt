-- ===== src/Examples.antt =====
-- The development at concrete inputs: a bucket in memory, a small cluster, and the theorems applied
-- to them.
mod Bucket
mod Cluster
mod Queues
mod Rings
mod Records
mod Placement
mod Scaling
mod Controllers
mod Gateways
mod Elections
mod Deployments
mod Drains
mod Edges
mod Upkeep
mod Configs
mod Brokers
mod Dashboards
