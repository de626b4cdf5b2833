-- ===== src/Examples/Drains.antt =====
-- A drain of the first node of the small cluster.
use asty.Common.{
  ℕ, ◌≡◌, refl, Bool, true, false, Option, none, some, List, [], ◌∷◌, Text, codes, length,
  get_elem?,
}
use asty.Types.Allocation.{ServiceAllocation, running, stopped}
use asty.Drainer.Plan.{DrainStatus, AllocOnNode, Env, closed, updates, draining}
use asty.Drainer.Moves.{run_drain}
use asty.Drainer.Manager.{new_drain_manager, start, initial_status}
use asty.Drainer.Account.{Ends}
use asty.Drainer.Lifetime.{start-Ends}
use asty.Examples.Bucket.{Bucket, memory}
use asty.Examples.Cluster.{cfg, api, copy_on, bucket}

-- The copy stops when it is asked to.
abbrev env : Env Bucket
env = record {
  store = memory;
  config = cfg;
  matrix = [];
  services = api ∷ [];
  stop_service = λ node name b. (true, b);
  watch = λ name node b. (updates (some (copy_on node stopped) ∷ []) closed, b);
  watch_all = λ b. ((copy_on (codes "n2") running ∷ [], false), b);
  cancelled_in = λ b. false;
  marshal_status = λ st. none;
  broadcast = λ payload b. b;
}

abbrev on_first : AllocOnNode
on_first = record { svc = api; alloc = copy_on (codes "n1") running }

abbrev first_status : DrainStatus
unfolding initial_status
first_status = initial_status (codes "n1") 1

start-Ends_example :
    Ends env
      (codes "n1")
      (on_first ∷ [])
      (run_drain env (codes "n1") (on_first ∷ []) 1 first_status bucket)
unfolding start asty.Common.Map.lookup new_drain_manager asty.Kv.Nodes.get_node asty.Common.same
    asty.Kv.Nodes.update_node asty.Drainer.Plan.collect_allocs
    asty.Kv.Allocations.list_all_allocations asty.Common.has_prefix asty.Types.Allocation.is_live
    asty.Common.Map.insert
start-Ends_example =
    start-Ends env (codes "n1") new_drain_manager
      (start env (codes "n1") new_drain_manager bucket).1 bucket
      (start env (codes "n1") new_drain_manager bucket).2 bucket 0 (on_first ∷ []) first_status refl
