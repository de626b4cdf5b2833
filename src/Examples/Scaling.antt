-- ===== src/Examples/Scaling.antt =====
-- The autoscaler on the small cluster.
use asty.Common.{
  ℕ, ◌≡◌, refl, ◌<◌, Bool, true, false, Option, none, some, List, [], ◌∷◌, ◌++◌, Text, codes,
  length, if◌then◌else◌,
}
use asty.Types.Allocation.{ServiceAllocation, ServiceCooldown, running}
use asty.Types.Node.{NodeInfo}
use asty.Common.Int.{pos, ltb_ℤ}
use asty.Types.Service.{ServiceDefinition}
use asty.Kv.Settings.{get_service_scale}
use asty.Autoscaler.Signals.{live_running, idle_window_satisfied}
use asty.Autoscaler.Evaluate.{
  ScalingDecision, grow, shrink, gateway_traffic, at_ceiling, floor_of, is_busy, evaluate_service,
  decided, noop, after_rollback,
}
use asty.Autoscaler.Ceiling.{Grows, evaluate_scale_up_lem}
use asty.Autoscaler.Idle.{IsIdle, HasWaited}
use asty.Autoscaler.Floor.{Shrinks, floor_setting, evaluate_scale_down_lem}
use asty.Examples.Bucket.{Bucket, memory}
use asty.Examples.Cluster.{cfg, api, north, south, copy_on, bucket, node_record}

abbrev everywhere : NodeInfo → Bool
everywhere n = true

evaluate_scale_up_lem_example :
    (at_ceiling cfg (copy_on (codes "n1") running ∷ []) ≡ false)
    × Grows memory cfg everywhere api
        (copy_on (codes "n1") running ∷ [])
        (north ∷ (south ∷ []))
        (grow api.name gateway_traffic south)
unfolding asty.Autoscaler.Evaluate.evaluate_scale_up asty.Autoscaler.Signals.find_node_with_traffic
    asty.Types.Node.is_ready asty.Common.Map.has asty.Scheduler.Helpers.node_ids_of
    asty.Common.Map.put asty.Common.same
evaluate_scale_up_lem_example =
    evaluate_scale_up_lem memory cfg everywhere api (copy_on (codes "n1") running ∷ [])
      (north ∷ (south ∷ [])) bucket (grow api.name gateway_traffic south) refl

abbrev copies : List ServiceAllocation
copies =
    copy_on (codes "n1") running
    ∷ (copy_on (codes "n2") running ∷ (copy_on (codes "n3") running ∷ []))

-- A service that has been idle since the time 5, at the time 1000.
abbrev idle : Bucket
idle = record {
  pairs =
      (codes "service.api.cooldown", (0 ∷ (0 ∷ (6 ∷ (0 ∷ (0 ∷ [])))), 1))
      ∷ ((codes "node.n1", (node_record (codes "n1") (codes "eu") 100, 2))
          ∷ ((codes "node.n2", (node_record (codes "n2") (codes "us") 100, 3))
              ∷ ((codes "node.n3", (node_record (codes "n3") (codes "us") 100, 4)) ∷ [])));
  revision = 4;
  clock = 1000;
  rivals = [];
}

-- A service whose copies use a fifth of their memory.
abbrev roomy : ServiceDefinition
roomy = record api { resources = record { cpu = pos 20; memory = pos 50 } }

evaluate_scale_down_lem_example :
    let (override, b₁) = get_service_scale memory api.name idle in
    (ltb_ℤ
        (floor_setting memory cfg everywhere roomy copies override)
        (pos (length (live_running copies)))
      ≡ true)
    × IsIdle cfg roomy (live_running copies)
    × HasWaited memory cfg roomy.name b₁
    × Shrinks memory cfg everywhere roomy copies (shrink api.name (copy_on (codes "n2") running))
unfolding asty.Autoscaler.Evaluate.evaluate_scale_down get_service_scale asty.Common.Map.lookup
    asty.Common.same live_running asty.Types.Allocation.is_status idle_window_satisfied
    asty.Kv.Cooldowns.get_service_cooldown asty.Kv.Nodes.list_nodes
    asty.Autoscaler.Signals.pick_allocation_to_remove asty.Scheduler.Helpers.pick_removal_victims
    asty.Common.Sort.sort asty.Common.Sort.place asty.Common.Map.count_of asty.Common.Map.bump
    asty.Common.Map.insert asty.Scheduler.Helpers.dc_of asty.Common.before asty.Common.has_prefix
    asty.Scheduler.Helpers.datacenter_of
evaluate_scale_down_lem_example =
    evaluate_scale_down_lem memory cfg everywhere roomy copies idle
      (shrink api.name (copy_on (codes "n2") running)) refl
