-- ===== src/Examples/Controllers.antt =====
-- The controller on the small cluster, with a rival writer.
use asty.Common.{
  ℕ, suc, ◌≡◌, refl, ◌⊎◌, Bool, true, false, Option, none, some, List, [], ◌∷◌, ◌++◌, Text, codes,
  if◌then◌else◌,
}
use asty.Common.Map.{Map, has, count_of, lookup}
use asty.Types.Allocation.{pending, running, is_status}
use asty.Types.Node.{NodeInfo}
use asty.Types.Service.{ServiceDefinition}
use asty.Kv.Allocations.{alloc_key, mutate_allocation}
use asty.Kv.Rounds.{Settled, mutate_allocation-Settled}
use asty.Workqueue.{Workqueue, new_workqueue, add_locked}
use asty.Controller.Dispatch.{World, to_starting, dispatch_one, after_dispatch}
use asty.Controller.Pass.{reconcile, work_once}
use asty.Controller.Worker.{work_once_lem}
use asty.Controller.Stale.{dispatch_one-stale}
use asty.Examples.Bucket.{Bucket, memory, write_pair}
use asty.Examples.Cluster.{cfg, api, copy_on, copy_key, stored, bucket, contested}

abbrev nowhere : NodeInfo → Bool
nowhere n = false

-- An agent that takes every command.
abbrev accepts : Text → ServiceDefinition → Bucket → Bool × Bucket
accepts node svc b = (true, b)

-- The bucket once the rival has written.
abbrev overtaken : Bucket
overtaken = record (write_pair (copy_key (codes "n1")) (stored (codes "n1") 2) contested) {
  clock = 1001;
  rivals = [];
}

mutate_allocation-Settled_example :
    let r = mutate_allocation memory (codes "api") (codes "n1") to_starting false contested in
    Settled memory (alloc_key (codes "api") (codes "n1")) to_starting r.1 r.2
unfolding mutate_allocation lookup asty.Common.same to_starting is_status asty.Common.Map.insert
mutate_allocation-Settled_example =
    mutate_allocation-Settled memory (codes "api") (codes "n1") to_starting false contested refl

dispatch_one-stale_example :
    dispatch_one memory accepts api (codes "n1") 7 new_workqueue contested
    ≡ after_dispatch memory api (codes "n1") 7 new_workqueue (accepts (codes "n1") api overtaken)
unfolding lookup asty.Common.same is_status asty.Kv.Allocations.write_back asty.Common.Map.insert
dispatch_one-stale_example =
    dispatch_one-stale memory accepts api (codes "n1") 7 new_workqueue contested contested overtaken
      overtaken (stored (codes "n1") 0) (stored (codes "n1") 2) 1 2 (copy_on (codes "n1") pending)
      (copy_on (codes "n1") running) refl refl refl refl refl refl refl

abbrev taken : Workqueue
taken = record new_workqueue { processing = codes "api" ∷ [] }

abbrev world : World Bucket
world = record {
  queue = record new_workqueue { queue = codes "api" ∷ []; dirty = codes "api" ∷ [] };
  bucket = bucket;
  events = [];
}

work_once_lem_example :
    let (failed, w₁) =
      reconcile memory cfg nowhere accepts
        (api ∷ [])
        (codes "api")
        7
        (record world { queue = taken }) in
    (w' : World Bucket) × (work_once memory cfg nowhere accepts (api ∷ []) 7 world ≡ some w')
    × (has (codes "api") w'.queue.processing ≡ false)
    × (count_of (codes "api") w'.queue.failures
        ≡ (if failed then suc (count_of (codes "api") w₁.queue.failures) else 0))
unfolding asty.Workqueue.get new_workqueue asty.Common.Map.del asty.Common.Map.put asty.Common.same
work_once_lem_example =
    work_once_lem memory cfg nowhere accepts (api ∷ []) 7 world (codes "api") taken refl
