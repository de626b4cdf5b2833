-- ===== src/Controller.antt =====
-- asty/internal/ops/reconciler: the work of the leader on one key of the queue (controller.go,
-- reconcile.go, autoscale.go and the filters of watch.go). The queue itself is in Workqueue.
pub mod Dispatch
pub mod Pass
pub mod Watch
pub mod Worker
pub mod Filter
pub mod Stale
