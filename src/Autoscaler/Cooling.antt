-- ===== src/Autoscaler/Cooling.antt =====
-- When the autoscaler leaves a service alone, and how that agrees with the dashboard's cooldown.
use asty.Common.{ℕ, ◌≡◌, ap, ◌∙◌, Bool, true, false, ◌||◌, some, List, arith, if◌then◌else◌, ◌⊎◌}
use asty.Types.Allocation.{ServiceAllocation, ServiceCooldown, status}
use asty.Types.Allocation.Cooldown.{unix_or_zero}
use asty.Types.Node.{NodeInfo}
use asty.Types.Service.{ServiceDefinition}
use asty.Kv.Store.{Store}
use asty.Kv.Allocations.{list_allocations}
use asty.Kv.Nodes.{list_nodes}
use asty.Kv.Cooldowns.{get_service_cooldown}
use asty.Scheduler.Helpers.{Config}
use asty.Autoscaler.Signals.{last_action_of, within_window}
use asty.Autoscaler.Evaluate.{
  decided, noop, after_rollback, deploying, evaluate_service, on_allocs, on_nodes, unless_held,
}

-- A service that the dashboard shows in a cooldown, of either kind, is in the autoscaler's, and the
-- dashboard's last action is the autoscaler's, in seconds.
pub within_window-status :
    (cfg : Config) (c : ServiceCooldown) (now : ℕ)
    → let st = status c now cfg.cooldown_up cfg.cooldown_down in
      ((((st.up_active || st.down_active) ≡ false)
          ⊎ (within_window cfg (last_action_of c) now ≡ true))
        × (st.last_action_at ≡ unix_or_zero (last_action_of c)))
unfolding status within_window last_action_of
within_window-status cfg c now = (ground arith, ground arith)

-- A service whose cooldown record says that a rollback failed or that a deployment is running is
-- left alone: the decision is to do nothing, and nothing is written.
pub evaluate_service-held :
    {B : Type 0} (s : Store B) (cfg : Config) (traffic : NodeInfo → Bool) (svc : ServiceDefinition)
    (b b₁ b₂ b₃ : B) (allocs : List ServiceAllocation) (nodes : List NodeInfo)
    (cd : ServiceCooldown)
    → list_allocations s svc.name b ≡ (some allocs, b₁)
    → list_nodes s b₁ ≡ (some nodes, b₂)
    → get_service_cooldown s svc.name b₂ ≡ (some cd, b₃)
    → (cd.rollback_failed || cd.deploy_in_progress) ≡ true
    → evaluate_service s cfg traffic svc b
      ≡ (decided (noop svc.name (if cd.rollback_failed then after_rollback else deploying)), b₃)
unfolding evaluate_service
evaluate_service-held s cfg traffic svc b b₁ b₂ b₃ allocs nodes cd p q r h =
    ap (on_allocs s cfg traffic svc) p
    ∙ ap (on_nodes s cfg traffic svc allocs) q
    ∙ ap (unless_held s cfg traffic svc allocs nodes) r
    ∙ ground (arith, h)
