-- ===== src/Controller/Filter.antt =====
-- What the watch on the allocations makes of an update.
use asty.Common.{
  ◌≡◌, refl, false, Option, none, some, arith, if◌then◌else◌, same_refl, inl, inr, Bool-cases, ◌⊎◌,
}
use asty.Common.Map.{Map, lookup, lookup-insert_self, lookup-erase}
use asty.Types.Allocation.{
  AllocationStatus, ServiceAllocation, is_status, pending, starting, deleted,
}
use asty.Workqueue.{Workqueue, add_locked}
use asty.Controller.Watch.{seen_id, is_news, on_alloc}

is_news_quiet :
    (o : Option AllocationStatus) (st : AllocationStatus)
    → is_news o st ≡ false
    → (prev : AllocationStatus) × (o ≡ some prev)
      × ((prev ≡ st) ⊎ ((prev ≡ starting) × (st ≡ pending)))
unfolding is_news is_status
is_news_quiet none st h = cc
is_news_quiet (some prev) st h = (prev, refl, ground arith)

-- An update adds its service to the queue, but where its status is the one last seen of that copy,
-- or goes from starting back to pending. The status is then the one last seen, and none is after a
-- delete.
pub on_alloc_lem :
    (a : ServiceAllocation) (seen : Map AllocationStatus) (q : Workqueue)
    → (lookup (seen_id a) (on_alloc a seen q).0
        ≡ (if is_status a.status deleted then none else some a.status))
      × (((on_alloc a seen q).1 ≡ add_locked q a.service_name)
          ⊎ (((on_alloc a seen q).1 ≡ q)
              × (is_status a.status deleted ≡ false)
              × ((prev : AllocationStatus) × (lookup (seen_id a) seen ≡ some prev)
                  × ((prev ≡ a.status) ⊎ ((prev ≡ starting) × (a.status ≡ pending))))))
unfolding on_alloc
on_alloc_lem a seen q = elim (Bool-cases (is_status a.status deleted)) [
  | inl gone ↦
      rw gone
        (ground (arith, lookup-erase (seen_id a) (seen_id a) seen, same_refl (seen_id a)), inl refl)
  | inr here ↦ rw here (
    lookup-insert_self (seen_id a) a.status seen,
    elim (Bool-cases (is_news (lookup (seen_id a) seen) a.status)) [
      | inl news ↦ inl (ground (arith, news))
      | inr quiet ↦ inr (ground (arith, quiet), refl, is_news_quiet _ a.status quiet)
    ],
  )
]
