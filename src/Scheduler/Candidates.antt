-- ===== src/Scheduler/Candidates.antt =====
-- asty/internal/ops/scheduler/candidates.go: which nodes get the new copies.
use asty.Common.{
  ℕ, zero, suc, Bool, not, ◌&&◌, ◌||◌, Option, none, some, List, [], ◌∷◌, Text, before, ltb, ◌==◌,
  if◌then◌else◌, length, keep, map,
}
use asty.Common.Int.{ℤ, pos, pos_part, ltb_ℤ, leb_ℤ, eqb_ℤ}
use asty.Common.Map.{Map, lookup, count_of, bump, has}
use asty.Common.Sort.{sort}
use asty.Types.Node.{NodeInfo}
use asty.Types.Service.{Resources}
use asty.Scheduler.Helpers.{Config, datacenter_of, has_resources, group_by_datacenter}
use asty.Proximity.Matrix.{Matrix, sort_datacenters}

unfoldable pub eligible_nodes : Config → Resources → List NodeInfo → List Text → List NodeInfo
eligible_nodes cfg required healthy occupied =
    keep (λ n. not (has n.id occupied) && has_resources cfg n required) healthy

-- `candidateLess`.
unfoldable pub candidate_less : Map ℕ → Map ℕ → NodeInfo → NodeInfo → Bool
candidate_less working packing a b =
    let i = count_of (datacenter_of a) working in
    let j = count_of (datacenter_of b) working in
    let p = count_of a.id packing in
    let q = count_of b.id packing in
    if not (i == j)
    then ltb i j
    else if not (p == q)
    then ltb q p
    else if not (eqb_ℤ a.memory_available b.memory_available)
    then ltb_ℤ b.memory_available a.memory_available
    else before a.id b.id

-- The first of the sorted nodes is picked and counted; `again` is the next round.
unfoldable pub pick_first :
    (List NodeInfo → Map ℕ → Map ℕ → List NodeInfo) → Map ℕ → Map ℕ → List NodeInfo → List NodeInfo
pick_first again working packing [] = []
pick_first again working packing (pick ∷ free) =
    pick ∷ again free (bump (datacenter_of pick) 1 working) (bump pick.id 1 packing)

-- The loop of `PickCandidates` with so many picks to make.
unfoldable pub picks : ℕ → List NodeInfo → Map ℕ → Map ℕ → List NodeInfo
unfolding pick_first
picks zero free working packing = []
picks (suc needed) free working packing =
    pick_first (picks needed) working packing (sort (candidate_less working packing) free)

unfoldable pub pick_candidates :
    Config → Resources → List NodeInfo → List Text → Map ℕ → Map ℕ → ℤ → List NodeInfo
unfolding picks eligible_nodes
pick_candidates cfg required healthy occupied dc_counts alloc_counts needed =
    let free = eligible_nodes cfg required healthy occupied in
    if length free == 0 || leb_ℤ needed (pos 0)
    then []
    else picks (pos_part needed) free dc_counts alloc_counts

-- The order within a datacenter: warmer first, then more free memory, then by ID.
unfoldable pub warmer : Map ℕ → NodeInfo → NodeInfo → Bool
warmer packing a b =
    let p = count_of a.id packing in
    let q = count_of b.id packing in
    if not (p == q)
    then ltb q p
    else if not (eqb_ℤ a.memory_available b.memory_available)
    then ltb_ℤ b.memory_available a.memory_available
    else before a.id b.id

unfoldable pub head_of : List NodeInfo → Option NodeInfo
head_of [] = none
head_of (n ∷ ns) = some n

unfoldable pub first_group : Map (List NodeInfo) → Map ℕ → List Text → Option NodeInfo
unfolding head_of warmer
first_group groups packing [] = none
first_group groups packing (dc ∷ dcs) =
    let rest = first_group groups packing dcs in
    elim (lookup dc groups) [
      | none ↦ rest
      | some group ↦ elim group [ [] ↦ rest | n ∷ ns ↦ head_of (sort (warmer packing) (n ∷ ns)) ]
    ]

-- `SelectNodeForTrafficBasedPlacement`. Go ranges over the groups in a random order; here they come
-- in the order in which they were made.
unfoldable pub select_node :
    Config → Matrix → Text → List NodeInfo → Resources → List Text → Map ℕ → Option NodeInfo
unfolding first_group
select_node cfg m source nodes required used packing =
    let candidates = keep (λ n. not (has n.id used) && has_resources cfg n required) nodes in
    let groups = group_by_datacenter candidates [] in
    first_group groups packing (sort_datacenters m source (map (λ g. g.0) groups))
