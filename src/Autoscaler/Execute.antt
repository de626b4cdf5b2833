-- ===== src/Autoscaler/Execute.antt =====
-- `ExecuteScalingDecision` (autoscaler.go and execute.go of asty/internal/ops/autoscaler). The event
-- that goes out on the bus is returned; `PublishEvent` is not modelled.
use asty.Common.{ℕ, ◌+◌, Option, none, some, List, [], ◌∷◌, Text, length}
use asty.Common.Int.{ℤ, pos, sub_ℕ}
use asty.Types.Allocation.{
  ServiceAllocation, ScalingAction, scale_up, scale_down, scale_none, never,
}
use asty.Types.Service.{ServiceDefinition}
use asty.Kv.Store.{Store, KvError}
use asty.Kv.Allocations.{delete_allocation, list_allocations}
use asty.Kv.Cooldowns.{mark_scale_up, mark_scale_down}
use asty.Scheduler.Helpers.{Config, live_allocations}
use asty.Scheduler.Reconcile.{place}
use asty.Autoscaler.Evaluate.{ScalingDecision, Reason}

pub record ScalingEvent : Type 0 where
  pub service : Text
  pub action : ScalingAction
  pub reason : Reason
  pub from_count : ℤ
  pub to_count : ℕ
  pub node_id : Text

pub data ExecuteError : Type 0 where
  kv_failed : KvError → ExecuteError
  no_remove_node unknown_action : ExecuteError

-- Live copies in a list that may not have been read.
unfoldable pub live_count : Option (List ServiceAllocation) → ℕ
live_count none = 0
live_count (some allocs) = length (live_allocations allocs)

module _ {B : Type 0} (s : Store B) (cfg : Config) where
  -- The outcome: an error, or the event, and the state after the call.
  unfoldable pub grown :
      ScalingDecision
      → ServiceDefinition
      → Option KvError × B
      → (Option ExecuteError × Option ScalingEvent) × B
  unfolding live_count
  grown d svc (some e, b) = ((some (kv_failed e), none), b)
  grown d svc (none, b) =
      let (now, b₁) = s.now b in
      let (e, b₂) = mark_scale_up s svc.name (some now) b₁ in
      let (allocs, b₃) = list_allocations s svc.name b₂ in
      let count = live_count allocs in
      (
        (
          none,
          some (record {
            service = svc.name;
            action = scale_up;
            reason = d.reason;
            from_count = sub_ℕ count 1;
            to_count = count;
            node_id = d.target_node;
          }),
        ),
        b₃,
      )

  unfoldable pub shrunk :
      ScalingDecision
      → ServiceDefinition
      → Option KvError × B
      → (Option ExecuteError × Option ScalingEvent) × B
  unfolding live_count
  shrunk d svc (some e, b) = ((some (kv_failed e), none), b)
  shrunk d svc (none, b) =
      let (now, b₁) = s.now b in
      let (e, b₂) = mark_scale_down s svc.name (some now) b₁ in
      let (allocs, b₃) = list_allocations s svc.name b₂ in
      let count = live_count allocs in
      (
        (
          none,
          some (record {
            service = svc.name;
            action = scale_down;
            reason = d.reason;
            from_count = pos (count + 1);
            to_count = count;
            node_id = d.remove_node;
          }),
        ),
        b₃,
      )

  unfoldable pub execute_scale_up :
      ScalingDecision → ServiceDefinition → B → (Option ExecuteError × Option ScalingEvent) × B
  unfolding grown
  execute_scale_up d svc b = grown d svc (place s cfg svc d.target_node b)

  unfoldable pub execute_scale_down :
      ScalingDecision → ServiceDefinition → B → (Option ExecuteError × Option ScalingEvent) × B
  unfolding shrunk
  execute_scale_down d svc b = elim d.remove_node [
    | [] ↦ ((some no_remove_node, none), b)
    | c ∷ t ↦ shrunk d svc (delete_allocation s svc.name (c ∷ t) b)
  ]

  unfoldable pub by_action :
      ScalingAction
      → ScalingDecision
      → ServiceDefinition
      → B
      → (Option ExecuteError × Option ScalingEvent) × B
  unfolding execute_scale_up execute_scale_down
  by_action scale_up d svc b = execute_scale_up d svc b
  by_action scale_down d svc b = execute_scale_down d svc b
  by_action scale_none d svc b = ((none, none), b)
  by_action never d svc b = ((some unknown_action, none), b)

  unfoldable pub execute_scaling_decision :
      ScalingDecision → ServiceDefinition → B → (Option ExecuteError × Option ScalingEvent) × B
  unfolding by_action
  execute_scaling_decision d svc b = by_action d.action d svc b
