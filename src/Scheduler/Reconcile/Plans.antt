-- ===== src/Scheduler/Reconcile/Plans.antt =====
-- What a pass over a service writes: the placements of a plan that is fixed by what it read.
use asty.Common.{
  ℕ, ◌+◌, ◌-◌, ◌≡◌, refl, ap, ◌∙◌, Bool, not, Option, some, List, [], ◌∷◌, Text, leb, ◌==◌,
  if◌then◌else◌, length, keep, map, arith, min, max,
}
use asty.Common.Int.{ℤ, pos}
use asty.Common.Map.{Map, has}
use asty.Types.Allocation.{ServiceAllocation}
use asty.Types.Node.{NodeInfo}
use asty.Types.Service.{ServiceDefinition}
use asty.Kv.Store.{Store}
use asty.Kv.Allocations.{list_allocations}
use asty.Kv.Nodes.{list_nodes}
use asty.Kv.Settings.{get_service_scale}
use asty.Scheduler.Helpers.{
  Config, filter_healthy, partition_allocs, target_copies, datacenter_counts,
}
use asty.Scheduler.Candidates.{pick_candidates, eligible_nodes}
use asty.Scheduler.Bounds.{length-pick_candidates}
use asty.Scheduler.Reconcile.{
  place, place_all, reconcile_system, reconcile_regular, reap, reconcile_service, with_nodes,
  with_allocs, with_parts, by_type, no_healthy_nodes,
}

-- A pass over a system service places one copy on each eligible node, in the order of the nodes, and
-- writes nothing else.
pub reconcile_system-eligible :
    {B : Type 0} (s : Store B) (cfg : Config) (svc : ServiceDefinition) (healthy : List NodeInfo)
    (occupied : List Text) (b : B)
    → reconcile_system s cfg svc healthy occupied b
      ≡ place_all s cfg svc (eligible_nodes cfg svc.resources healthy occupied) b
unfolding reconcile_system place_all eligible_nodes
reconcile_system-eligible s cfg svc [] occupied b = refl
reconcile_system-eligible s cfg svc (n ∷ ns) occupied b = ground (
  arith,
  reconcile_system-eligible s cfg svc ns occupied b,
  reconcile_system-eligible s cfg svc ns occupied (place s cfg svc n.id b).1,
)

-- What a pass over a regular service places.
abbrev pub regular_plan :
    Config
    → Option ℤ
    → ServiceDefinition
    → List NodeInfo
    → List ServiceAllocation
    → List Text
    → Map ℕ
    → List NodeInfo
regular_plan cfg override svc healthy live occupied counts =
    let target = target_copies cfg override (length healthy) in
    if leb target (length live)
    then []
    else pick_candidates cfg svc.resources healthy occupied (datacenter_counts healthy occupied)
        counts (pos (target - length live))

-- A pass over a regular service reads the operator's override and places one copy on each node of
-- its plan. With these copies the service has its target, unless the eligible nodes run out; it
-- never has more than the target, and a service that has it already gets none.
pub reconcile_regular_lem :
    {B : Type 0} (s : Store B) (cfg : Config) (svc : ServiceDefinition) (healthy : List NodeInfo)
    (live : List ServiceAllocation) (occupied : List Text) (counts : Map ℕ) (b : B)
    → let (override, b₁) = get_service_scale s svc.name b in
      let plan = regular_plan cfg override svc healthy live occupied counts in
      let target = target_copies cfg override (length healthy) in
      (reconcile_regular s cfg svc healthy live occupied counts b ≡ place_all s cfg svc plan b₁)
      × (length live + length plan
          ≡ max (length live) (
              min target
                (length live + length (eligible_nodes cfg svc.resources healthy occupied))))
unfolding reconcile_regular place_all
reconcile_regular_lem s cfg svc healthy live occupied counts b =
    let override = (get_service_scale s svc.name b).0 in
    let target = target_copies cfg override (length healthy) in
    (
      ground arith,
      ground (
        arith,
        length-pick_candidates cfg svc.resources healthy occupied
            (datacenter_counts healthy occupied) counts (pos (target - length live)),
      ),
    )

abbrev pub on_nodes : List NodeInfo → ServiceAllocation → Bool
on_nodes nodes a = has a.node_id (map (λ n. n.id) nodes)

partition_allocs_lem :
    (allocs : List ServiceAllocation) (known : List Text)
    → partition_allocs allocs known
      ≡ (keep (λ a. has a.node_id known) allocs, keep (λ a. not (has a.node_id known)) allocs)
unfolding partition_allocs
partition_allocs_lem [] known = refl
partition_allocs_lem (x ∷ xs) known = ground (arith, partition_allocs_lem xs known)

module _ {B : Type 0} (s : Store B) (cfg : Config) (svc : ServiceDefinition) (b b₁ b₂ : B)
    (allocs : List ServiceAllocation) (nodes : List NodeInfo)
    (listed : list_allocations s svc.name b ≡ (some allocs, b₁))
    (known : list_nodes s b₁ ≡ (some nodes, b₂)) where
  abbrev left : List ServiceAllocation
  left = keep (on_nodes nodes) allocs

  abbrev reaped : B
  reaped = reap s cfg (keep (λ a. not (on_nodes nodes a)) allocs) b₂

  reads : reconcile_service s cfg svc b ≡ (
      if length (filter_healthy nodes) == 0
      then (some no_healthy_nodes, reaped)
      else by_type s cfg svc.type svc (filter_healthy nodes) left reaped)
  unfolding reconcile_service
  reads =
      ap (with_allocs s cfg svc) listed
      ∙ ap (with_nodes s cfg svc allocs) known
      ∙ ap (with_parts s cfg svc nodes b₂) (partition_allocs_lem allocs (map (λ n. n.id) nodes))

  -- A pass over a service whose records and nodes can be read, with no node ready: the copies on
  -- nodes that have left the cluster are deleted, and only they; the pass returns an error.
  pub reconcile_service-no_healthy :
      filter_healthy nodes ≡ [] → reconcile_service s cfg svc b ≡ (some no_healthy_nodes, reaped)
  reconcile_service-no_healthy h = reads ∙ rw h
