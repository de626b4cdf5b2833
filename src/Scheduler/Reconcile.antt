-- ===== src/Scheduler/Reconcile.antt =====
-- asty/internal/ops/scheduler/scheduler.go and reconcile.go: one pass over a service. The passes
-- write to the cluster state and go on when a write fails, as the source does; it logs the error.
pub mod Plans
use asty.Common.{
  ℕ, zero, suc, ◌-◌, Bool, true, false, not, ◌&&◌, Option, none, some, List, [], ◌∷◌, ◌++◌, Text,
  codes, same, ltb, leb, ◌==◌, if◌then◌else◌, length, keep, map,
}
use asty.Common.Int.{ℤ, pos}
use asty.Common.Map.{Map, has, put}
use asty.Types.Allocation.{ServiceAllocation, pending}
use asty.Types.Node.{NodeInfo}
use asty.Types.Service.{ServiceDefinition, ServiceType, system, service, other}
use asty.Kv.Store.{Store, ServiceVersion, KvError}
use asty.Kv.Allocations.{
  create_allocation, delete_allocation, list_allocations, list_all_allocations,
}
use asty.Kv.Settings.{get_service_scale, get_service_version}
use asty.Kv.Nodes.{list_nodes, get_node}
use asty.Proximity.Matrix.{Matrix}
use asty.Scheduler.Helpers.{
  Config, live_allocations, occupied_nodes, node_ids_of, partition_allocs, filter_healthy,
  has_resources, alloc_counts, target_copies, datacenter_counts, datacenter_of,
}
use asty.Scheduler.Candidates.{pick_candidates, select_node}

pub data SchedulerError : Type 0 where
  allocations_unreadable nodes_unreadable no_healthy_nodes unknown_type : SchedulerError

or_latest : Option ServiceVersion → Text
or_latest none = codes "latest"
or_latest (some v) = elim v.current [ [] ↦ codes "latest" | c ∷ t ↦ c ∷ t ]

module _ {B : Type 0} (s : Store B) (cfg : Config) where
  -- `VersionFor`, with a store.
  unfoldable pub version_for : Text → B → Text × B
  unfolding or_latest
  version_for name b = let (v, b₁) = get_service_version s name b in (or_latest v, b₁)

  -- `createAllocation`.
  unfoldable pub place : ServiceDefinition → Text → B → Option KvError × B
  place svc node_id b =
      let (version, b₁) = version_for svc.name b in
      create_allocation s
        (record {
          id = [];
          service_name = svc.name;
          node_id = node_id;
          status = pending;
          version = version;
          pid = 0;
          cpu_usage = 0;
          memory_usage = 0;
          restarts = 0;
          consecutive_failures = 0;
          created_at = none;
          updated_at = none;
        })
        b₁

  -- The loop over the candidates at the end of `reconcileRegular`.
  unfoldable pub place_all : ServiceDefinition → List NodeInfo → B → B
  place_all svc [] b = b
  place_all svc (n ∷ ns) b = let (e, b₁) = place svc n.id b in place_all svc ns b₁

  -- `ComputeNodeAllocCounts`.
  unfoldable pub node_alloc_counts : B → Map ℕ × B
  node_alloc_counts b =
      let (all, b₁) = list_all_allocations s b in
      (elim all [ none ↦ [] | some as' ↦ alloc_counts [] as' ], b₁)

  -- The loop of `reconcileSystem`.
  unfoldable pub reconcile_system : ServiceDefinition → List NodeInfo → List Text → B → B
  reconcile_system svc [] occupied b = b
  reconcile_system svc (n ∷ ns) occupied b =
      let (e, b₁) = place svc n.id b in
      reconcile_system svc ns occupied
        (if has n.id occupied then b else if not (has_resources cfg n svc.resources) then b else b₁)

  -- `reconcileRegular`.
  unfoldable pub reconcile_regular :
      ServiceDefinition → List NodeInfo → List ServiceAllocation → List Text → Map ℕ → B → B
  reconcile_regular svc healthy live occupied counts b =
      let (override, b₁) = get_service_scale s svc.name b in
      let target = target_copies cfg override (length healthy) in
      if leb target (length live)
      then b₁
      else place_all svc
          (pick_candidates cfg svc.resources healthy occupied (datacenter_counts healthy occupied)
            counts (pos (target - length live)))
          b₁

  -- The deletes of `reapGhostAllocations`.
  unfoldable pub reap : List ServiceAllocation → B → B
  reap [] b = b
  reap (g ∷ gs) b = let (e, b₁) = delete_allocation s g.service_name g.node_id b in reap gs b₁

  -- The `switch` on the type of the service.
  unfoldable pub by_type :
      ServiceType
      → ServiceDefinition
      → List NodeInfo
      → List ServiceAllocation
      → B
      → Option SchedulerError × B
  by_type system svc healthy allocs b =
      (none, reconcile_system svc healthy (occupied_nodes allocs) b)
  by_type service svc healthy allocs b =
      let (counts, b₁) = node_alloc_counts b in
      (
        none,
        reconcile_regular svc healthy (live_allocations allocs) (occupied_nodes allocs) counts b₁,
      )
  by_type (other t) svc healthy allocs b = (some unknown_type, b)

  -- The rest of `ReconcileService`, from the partition, from the node list and from the copies on.
  unfoldable pub with_parts :
      ServiceDefinition
      → List NodeInfo
      → B
      → List ServiceAllocation × List ServiceAllocation
      → Option SchedulerError × B
  unfolding by_type
  with_parts svc nodes b (on_known, ghosts) =
      let b₁ = reap ghosts b in
      let healthy = filter_healthy nodes in
      if length healthy == 0
      then (some no_healthy_nodes, b₁)
      else by_type svc.type svc healthy on_known b₁

  unfoldable pub with_nodes :
      ServiceDefinition
      → List ServiceAllocation
      → Option (List NodeInfo) × B
      → Option SchedulerError × B
  unfolding with_parts
  with_nodes svc allocs (none, b) = (some nodes_unreadable, b)
  with_nodes svc allocs (some nodes, b) =
      with_parts svc nodes b (partition_allocs allocs (map (λ n. n.id) nodes))

  unfoldable pub with_allocs :
      ServiceDefinition → Option (List ServiceAllocation) × B → Option SchedulerError × B
  unfolding with_nodes
  with_allocs svc (none, b) = (some allocations_unreadable, b)
  with_allocs svc (some allocs, b) = with_nodes svc allocs (list_nodes s b)

  -- `ReconcileService`.
  unfoldable pub reconcile_service : ServiceDefinition → B → Option SchedulerError × B
  unfolding with_allocs
  reconcile_service svc b = with_allocs svc (list_allocations s svc.name b)

  -- `SelectNearestForReplacement`.
  unfoldable pub select_nearest : Matrix → Text → ServiceDefinition → B → Option NodeInfo × B
  select_nearest m source_id svc b =
      let (source, b₁) = get_node s source_id b in
      let (nodes, b₂) = list_nodes s b₁ in
      let (allocs, b₃) = list_allocations s svc.name b₂ in
      let (counts, b₄) = node_alloc_counts b₃ in
      elim source [
        | none ↦ (none, b₁)
        | some src ↦ elim nodes [
          | none ↦ (none, b₂)
          | some ns ↦ elim allocs [
            | none ↦ (none, b₃)
            | some as' ↦ (
              select_node cfg m (datacenter_of src) (filter_healthy ns) svc.resources
                  (put source_id (node_ids_of (live_allocations as'))) counts,
              b₄,
            )
          ]
        ]
      ]
