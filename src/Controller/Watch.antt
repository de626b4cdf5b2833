-- ===== src/Controller/Watch.antt =====
-- The filters of asty/internal/ops/reconciler/watch.go: which updates of a watch add keys.
use asty.Common.{Bool, true, not, ◌&&◌, Option, none, some, Text, codes, ◌++◌, if◌then◌else◌}
use asty.Common.Map.{Map, lookup, insert, erase}
use asty.Types.Allocation.{
  AllocationStatus, ServiceAllocation, is_status, deleted, starting, pending,
}
use asty.Workqueue.{Workqueue, add_locked}

-- The key of `seen`.
unfoldable pub seen_id : ServiceAllocation → Text
seen_id a = a.service_name ++ codes "/" ++ a.node_id

-- Does an update from the status last seen, if there is one, add the service? A missing entry reads
-- as the empty status.
unfoldable pub is_news : Option AllocationStatus → AllocationStatus → Bool
is_news none st = true
is_news (some prev) st =
    not (is_status prev st) && not (is_status prev starting && is_status st pending)

-- The callback of `watchAllocsToQueue`, with `seen` and the queue.
unfoldable pub on_alloc :
    ServiceAllocation → Map AllocationStatus → Workqueue → Map AllocationStatus × Workqueue
unfolding seen_id is_news
on_alloc a seen q =
    if is_status a.status deleted then (erase (seen_id a) seen, add_locked q a.service_name) else (
      insert (seen_id a) a.status seen,
      if is_news (lookup (seen_id a) seen) a.status then add_locked q a.service_name else q,
    )
