-- ===== src/Scheduler/Helpers.antt =====
-- asty/internal/ops/scheduler/helpers.go and the pure parts of scheduler.go. A Go set of node IDs is
-- the list of its keys, a map of counters an association list.
use asty.Common.{
  ℕ, Bool, ◌&&◌, Option, none, some, List, [], ◌∷◌, ◌++◌, Text, codes, before, ltb, ◌==◌,
  if◌then◌else◌, length, take, keep, ◌||◌,
}
use asty.Common.Int.{ℤ, pos, pos_part, ◌-ℤ◌, ltb_ℤ, leb_ℤ}
use asty.Common.Map.{Map, lookup, insert, count_of, bump, has, put}
use asty.Common.Sort.{sort}
use asty.Types.Allocation.{ServiceAllocation, is_live, occupies}
use asty.Types.Node.{NodeInfo, is_ready}
use asty.Types.Service.{Resources}

-- The part of the configuration that the scheduler and the autoscaler read. Times are nanoseconds.
pub record Config : Type 0 where
  pub min_copies : ℤ
  pub max_copies : ℤ
  pub reserved_cpu : ℤ
  pub reserved_memory : ℤ
  pub target_cpu : ℕ
  pub target_memory : ℕ
  pub cooldown_up : ℕ
  pub cooldown_down : ℕ
  pub idle_hold : ℕ

unfoldable pub live_allocations : List ServiceAllocation → List ServiceAllocation
live_allocations allocs = keep (λ a. is_live a.status) allocs

unfoldable pub occupied_from : List Text → List ServiceAllocation → List Text
occupied_from out [] = out
occupied_from out (a ∷ as') =
    occupied_from (if occupies a.status then put a.node_id out else out) as'

unfoldable pub occupied_nodes : List ServiceAllocation → List Text
unfolding occupied_from
occupied_nodes allocs = occupied_from [] allocs

unfoldable pub ids_from : List Text → List ServiceAllocation → List Text
ids_from out [] = out
ids_from out (a ∷ as') = ids_from (put a.node_id out) as'

unfoldable pub node_ids_of : List ServiceAllocation → List Text
unfolding ids_from
node_ids_of allocs = ids_from [] allocs

-- `partitionAllocsByNode`: on known nodes, and ghosts.
unfoldable pub partition_allocs :
    List ServiceAllocation → List Text → List ServiceAllocation × List ServiceAllocation
partition_allocs [] known = ([], [])
partition_allocs (a ∷ as') known =
    let (on_known, ghosts) = partition_allocs as' known in
    if has a.node_id known then (a ∷ on_known, ghosts) else (on_known, a ∷ ghosts)

-- `DatacenterOf`.
unfoldable pub default_if_empty : Text → Text
default_if_empty [] = codes "default"
default_if_empty (c ∷ s) = c ∷ s

unfoldable pub datacenter_of : NodeInfo → Text
unfolding default_if_empty
datacenter_of n = default_if_empty n.datacenter

unfoldable pub counts_from : Map ℕ → List NodeInfo → List Text → Map ℕ
counts_from counts [] occupied = counts
counts_from counts (n ∷ ns) occupied =
    let dc = datacenter_of n in
    let present = bump dc 0 counts in
    counts_from (if has n.id occupied then bump dc 1 present else present) ns occupied

unfoldable pub datacenter_counts : List NodeInfo → List Text → Map ℕ
unfolding counts_from
datacenter_counts healthy occupied = counts_from [] healthy occupied

-- `GroupByDatacenter`: each datacenter with its nodes, in their order.
unfoldable pub group_by_datacenter : List NodeInfo → Map (List NodeInfo) → Map (List NodeInfo)
group_by_datacenter [] out = out
group_by_datacenter (n ∷ ns) out =
    let dc = datacenter_of n in
    group_by_datacenter ns
      (insert dc (elim (lookup dc out) [ none ↦ n ∷ [] | some g ↦ g ++ n ∷ [] ]) out)

-- `FilterHealthyNodes` and `hasResources`.
unfoldable pub filter_healthy : List NodeInfo → List NodeInfo
filter_healthy nodes = keep (λ n. is_ready n.status) nodes

unfoldable pub has_resources : Config → NodeInfo → Resources → Bool
has_resources cfg node required =
    leb_ℤ required.cpu (node.cpu_available -ℤ cfg.reserved_cpu)
    && leb_ℤ required.memory (node.memory_available -ℤ cfg.reserved_memory)

-- The loop of `ComputeNodeAllocCounts`.
unfoldable pub alloc_counts : Map ℕ → List ServiceAllocation → Map ℕ
alloc_counts out [] = out
alloc_counts out (a ∷ as') =
    alloc_counts (if is_live a.status then bump a.node_id 1 out else out) as'

-- `TargetCopies`, given the operator's override.
unfoldable pub target_copies : Config → Option ℤ → ℕ → ℕ
target_copies cfg override healthy =
    let target : ℤ = elim override [ none ↦ cfg.min_copies | some n ↦ n ] in
    let wanted = if ltb_ℤ target (pos 0) then pos 0 else target in
    pos_part (if ltb_ℤ (pos healthy) wanted then pos healthy else wanted)

-- The datacenter of each node, and the number of copies in each datacenter. A node that is not
-- listed counts under the empty name.
unfoldable pub node_dcs : Map Text → List NodeInfo → Map Text
node_dcs out [] = out
node_dcs out (n ∷ ns) = node_dcs (insert n.id (datacenter_of n) out) ns

unfoldable pub dc_of : Map Text → ServiceAllocation → Text
dc_of dcs a = elim (lookup a.node_id dcs) [ none ↦ [] | some dc ↦ dc ]

unfoldable pub dc_counts : Map Text → Map ℕ → List ServiceAllocation → Map ℕ
dc_counts dcs out [] = out
dc_counts dcs out (a ∷ as') = dc_counts dcs (bump (dc_of dcs a) 1 out) as'

unfoldable pub by_node : ServiceAllocation → ServiceAllocation → Bool
by_node a b = before a.node_id b.node_id

-- The comparator of `PickRemovalVictims`: the more crowded datacenter first, then by node ID.
unfoldable pub crowded_first : Map Text → Map ℕ → ServiceAllocation → ServiceAllocation → Bool
crowded_first dcs counts a b =
    let i = count_of (dc_of dcs a) counts in
    let j = count_of (dc_of dcs b) counts in if i == j then before a.node_id b.node_id else ltb j i

unfoldable pub pick_removal_victims :
    List ServiceAllocation → List NodeInfo → ℤ → List ServiceAllocation
unfolding by_node crowded_first node_dcs dc_counts
pick_removal_victims live nodes n =
    let dcs = node_dcs [] nodes in
    let counts = dc_counts dcs [] live in
    if leb_ℤ n (pos 0) || length live == 0
    then []
    else if leb_ℤ (pos (length live)) n
    then sort by_node live
    else take (pos_part n) (sort (crowded_first dcs counts) live)
