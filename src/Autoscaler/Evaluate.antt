-- ===== src/Autoscaler/Evaluate.antt =====
-- `EvaluateService` and the two evaluations that it tries (autoscaler.go, scale_up.go and
-- scale_down.go of asty/internal/ops/autoscaler). The test for gateway traffic on a node averages
-- floating-point samples; it is the argument `traffic`. A reason is a constructor, not its text.
use asty.Common.{
  ℕ, ◌/◌, Bool, not, ◌&&◌, ◌||◌, Option, none, some, List, [], Text, ltb, leb, if◌then◌else◌,
  length,
}
use asty.Common.Int.{ℤ, pos, pos_part, ltb_ℤ, leb_ℤ}
use asty.Types.Allocation.{
  ServiceAllocation, ServiceCooldown, ScalingAction, scale_up, scale_down, scale_none,
}
use asty.Types.Node.{NodeInfo}
use asty.Types.Service.{ServiceDefinition}
use asty.Kv.Store.{Store}
use asty.Kv.Allocations.{list_allocations}
use asty.Kv.Nodes.{list_nodes}
use asty.Kv.Cooldowns.{get_service_cooldown}
use asty.Kv.Settings.{get_service_scale}
use asty.Scheduler.Helpers.{
  Config, filter_healthy, node_ids_of, datacenter_counts, live_allocations,
}
use asty.Scheduler.Candidates.{pick_candidates}
use asty.Scheduler.Reconcile.{node_alloc_counts}
use asty.Autoscaler.Signals.{
  live_running, average_usage, memory_percent, has_limit, find_overloaded_alloc,
  find_node_with_traffic, first_of, pick_allocation_to_remove, in_cooldown, idle_window_satisfied,
  clear_idle_marker,
}

pub data Reason : Type 0 where
  after_rollback deploying cooling within_target gateway_traffic exceeded_targets below_floor :
      Reason

pub record ScalingDecision : Type 0 where
  pub service_name : Text
  pub action : ScalingAction
  pub reason : Reason
  pub target_node : Text
  pub remove_node : Text

abbrev pub noop : Text → Reason → ScalingDecision
noop name reason = record {
  service_name = name;
  action = scale_none;
  reason = reason;
  target_node = [];
  remove_node = [];
}

abbrev pub grow : Text → Reason → NodeInfo → ScalingDecision
grow name reason n = record {
  service_name = name;
  action = scale_up;
  reason = reason;
  target_node = n.id;
  remove_node = [];
}

abbrev pub shrink : Text → ServiceAllocation → ScalingDecision
shrink name victim = record {
  service_name = name;
  action = scale_down;
  reason = below_floor;
  target_node = [];
  remove_node = victim.node_id;
}

pub data EvaluateError : Type 0 where
  no_allocations no_nodes : EvaluateError

-- The outcome of `EvaluateService`.
pub data Outcome : Type 0 where
  failed_with : EvaluateError → Outcome
  decided : ScalingDecision → Outcome

-- The tests of `evaluateScaleDown` on the running copies, all of which must fail for the service to
-- be idle.
unfoldable pub is_busy : Config → ServiceDefinition → List ServiceAllocation → Bool
unfolding average_usage memory_percent
is_busy cfg svc copies =
    let (cpu, memory) = average_usage copies in
    ltb (cfg.target_cpu / 2) cpu
    || (has_limit svc && ltb (cfg.target_memory / 2) (memory_percent svc memory))

-- The floor of `evaluateScaleDown`, given the operator's override.
unfoldable pub floor_of : Config → Option ℤ → ℕ
floor_of cfg override =
    let floor : ℤ = elim override [ none ↦ cfg.min_copies | some n ↦ n ] in
    pos_part (if ltb_ℤ floor (pos 0) then pos 0 else floor)

-- `MaxCopies` is set and reached.
unfoldable pub at_ceiling : Config → List ServiceAllocation → Bool
at_ceiling cfg live = ltb_ℤ (pos 0) cfg.max_copies && leb_ℤ cfg.max_copies (pos (length live))

module _ {B : Type 0} (s : Store B) (cfg : Config) (traffic : NodeInfo → Bool) where
  unfoldable pub pick_free_node :
      ServiceDefinition → List ServiceAllocation → List NodeInfo → B → Option NodeInfo × B
  unfolding first_of
  pick_free_node svc live nodes b =
      let healthy = filter_healthy nodes in
      let occupied = node_ids_of live in
      let (counts, b₁) = node_alloc_counts s cfg b in
      (
        first_of (
            pick_candidates cfg svc.resources healthy occupied (datacenter_counts healthy occupied)
              counts (pos 1)),
        b₁,
      )

  -- The second rule of `evaluateScaleUp`: a copy is over its targets.
  unfoldable pub relieve :
      ServiceDefinition
      → List ServiceAllocation
      → List NodeInfo
      → Option ServiceAllocation
      → B
      → Option ScalingDecision × B
  unfolding pick_free_node
  relieve svc live nodes none b = (none, b)
  relieve svc live nodes (some hot) b =
      let (target, b₁) = pick_free_node svc live nodes b in
      (elim target [ none ↦ none | some n ↦ some (grow svc.name exceeded_targets n) ], b₁)

  unfoldable pub evaluate_scale_up :
      ServiceDefinition → List ServiceAllocation → List NodeInfo → B → Option ScalingDecision × B
  unfolding at_ceiling relieve
  evaluate_scale_up svc live nodes b =
      if at_ceiling cfg live then (none, b) else elim (find_node_with_traffic traffic nodes live) [
        | some n ↦ (some (grow svc.name gateway_traffic n), b)
        | none ↦ relieve svc live nodes (find_overloaded_alloc cfg svc live) b
      ]

  -- The end of `evaluateScaleDown`, once the service has been idle for long enough.
  unfoldable pub choose_victim :
      ServiceDefinition → List ServiceAllocation → B → Option ScalingDecision × B
  choose_victim svc copies b =
      let (nodes, b₁) = list_nodes s b in
      elim nodes [
        | none ↦ (none, b₁)
        | some ns ↦ (
          elim (pick_allocation_to_remove copies ns) [
            | none ↦ none
            | some victim ↦ some (shrink svc.name victim)
          ],
          b₁,
        )
      ]

  unfoldable pub evaluate_scale_down :
      ServiceDefinition → List ServiceAllocation → B → Option ScalingDecision × B
  unfolding floor_of is_busy choose_victim
  evaluate_scale_down svc live b =
      let (override, b₁) = get_service_scale s svc.name b in
      let floor = floor_of cfg override in
      let copies = live_running live in
      let (elapsed, b₂) = idle_window_satisfied s cfg svc.name b₁ in
      if leb (length live) floor
      then (none, clear_idle_marker s cfg svc.name b₁)
      else if leb (length copies) floor
      then (none, clear_idle_marker s cfg svc.name b₁)
      else if is_busy cfg svc copies
      then (none, clear_idle_marker s cfg svc.name b₁)
      else if not elapsed
      then (none, b₂)
      else choose_victim svc copies b₂

  -- The end of `EvaluateService`: grow, or else shrink, or else neither.
  unfoldable pub or_noop : ServiceDefinition → Option ScalingDecision × B → Outcome × B
  or_noop svc (none, b) = (decided (noop svc.name within_target), b)
  or_noop svc (some d, b) = (decided d, b)

  unfoldable pub or_shrink :
      ServiceDefinition → List ServiceAllocation → Option ScalingDecision × B → Outcome × B
  unfolding or_noop
  or_shrink svc live (none, b) = or_noop svc (evaluate_scale_down svc live b)
  or_shrink svc live (some d, b) = (decided d, b)

  unfoldable pub weigh :
      ServiceDefinition → List ServiceAllocation → List NodeInfo → B → Outcome × B
  unfolding or_shrink
  weigh svc allocs nodes b =
      let live = live_allocations allocs in
      let (cooled, b₁) = in_cooldown s cfg svc.name b in
      if cooled
      then (decided (noop svc.name cooling), b₁)
      else or_shrink svc live (evaluate_scale_up svc live nodes b₁)

  -- The tests on the cooldown record; one that cannot be read is passed over.
  unfoldable pub unless_held :
      ServiceDefinition
      → List ServiceAllocation
      → List NodeInfo
      → Option ServiceCooldown × B
      → Outcome × B
  unfolding weigh
  unless_held svc allocs nodes (none, b) = weigh svc allocs nodes b
  unless_held svc allocs nodes (some cd, b) =
      if cd.rollback_failed
      then (decided (noop svc.name after_rollback), b)
      else if cd.deploy_in_progress
      then (decided (noop svc.name deploying), b)
      else weigh svc allocs nodes b

  unfoldable pub on_nodes :
      ServiceDefinition → List ServiceAllocation → Option (List NodeInfo) × B → Outcome × B
  unfolding unless_held
  on_nodes svc allocs (none, b) = (failed_with no_nodes, b)
  on_nodes svc allocs (some nodes, b) =
      unless_held svc allocs nodes (get_service_cooldown s svc.name b)

  unfoldable pub on_allocs : ServiceDefinition → Option (List ServiceAllocation) × B → Outcome × B
  unfolding on_nodes
  on_allocs svc (none, b) = (failed_with no_allocations, b)
  on_allocs svc (some allocs, b) = on_nodes svc allocs (list_nodes s b)

  unfoldable pub evaluate_service : ServiceDefinition → B → Outcome × B
  unfolding on_allocs
  evaluate_service svc b = on_allocs svc (list_allocations s svc.name b)
