-- ===== src/Examples/Placement.antt =====
-- The scheduler on the small cluster.
use asty.Common.{◌≡◌, ◌+◌, List, [], ◌∷◌, codes, min, max, length}
use asty.Common.Int.{pos}
use asty.Types.Allocation.{ServiceAllocation, running}
use asty.Types.Node.{NodeInfo, down}
use asty.Kv.Settings.{get_service_scale}
use asty.Scheduler.Helpers.{target_copies}
use asty.Scheduler.Candidates.{eligible_nodes, pick_candidates}
use asty.Scheduler.Greedy.{Greedy, pick_candidates-Greedy}
use asty.Scheduler.Reconcile.{reconcile_regular, place_all}
use asty.Scheduler.Reconcile.Plans.{regular_plan, reconcile_regular_lem}
use asty.Examples.Bucket.{memory}
use asty.Examples.Cluster.{cfg, api, north, south, east, copy_on, bucket}

abbrev nodes : List NodeInfo
nodes = north ∷ (south ∷ (east ∷ []))

pick_candidates-Greedy_example :
    Greedy 1 [] []
      (eligible_nodes cfg api.resources nodes (codes "n1" ∷ []))
      (pick_candidates cfg api.resources nodes (codes "n1" ∷ []) [] [] (pos 1))
pick_candidates-Greedy_example =
    pick_candidates-Greedy cfg api.resources nodes (codes "n1" ∷ []) [] [] (pos 1)

reconcile_regular_lem_example :
    let (override, b₁) = get_service_scale memory api.name bucket in
    let plan = regular_plan cfg override api nodes [] [] [] in
    let target = target_copies cfg override (length nodes) in
    (reconcile_regular memory cfg api nodes [] [] [] bucket ≡ place_all memory cfg api plan b₁)
    × (0 + length plan
        ≡ max 0 (min target (0 + length (eligible_nodes cfg api.resources nodes []))))
reconcile_regular_lem_example = reconcile_regular_lem memory cfg api nodes [] [] [] bucket

abbrev gone : ServiceAllocation
gone = copy_on (codes "gone") running
