-- ===== src/Deployer/Revert.antt =====
-- asty/internal/ops/deployer/rollback.go, and the pins and gates of lifecycle.go.
use asty.Common.{
  ◌*◌, ◌/◌, Bool, true, false, ◌||◌, List, [], ◌∷◌, Option, none, some, Text, codes, same, max,
  if◌then◌else◌,
}
use asty.Types.Allocation.{ServiceAllocation}
use asty.Kv.Store.{Store, KvError, ServiceVersion}
use asty.Kv.Cooldowns.{set_rollback_failed, set_deploy_in_progress}
use asty.Kv.Settings.{set_service_version}
use asty.Deployer.Plan.{
  failed, reverted, rollback_failed, revert, Cause, no_previous, rollback_mark, rollback_send,
  rollback_unhealthy, mark_pending, send_update, wait_health, DeploymentPlan, DeploymentStatus,
  Deployer,
}
use asty.Deployer.History.{update_last_record, record_rollback_step}
use asty.Deployer.Tracker.{wait_for_batch_health}
use asty.Deployer.Rollout.{Site, Env, send_update_command}
use asty.Deployer.Rollout

-- A run that has ended: the final status, and the error, which `none` says there is not.
pub record Ended (B : Type 0) : Type 0 where
  pub status : DeploymentStatus
  pub error : Option Cause
  pub site : Site B

-- `pinVersion` and `setDeployGate`, which only log an error.
unfoldable pub pin_version : {B : Type 0} → Store B → Text → ServiceVersion → B → B
pin_version s service v b = (set_service_version s service v b).1

unfoldable pub set_deploy_gate : {B : Type 0} → Store B → Text → Bool → B → B
set_deploy_gate s service active b = (set_deploy_in_progress s service active b).1

-- `failDeployment`.
unfoldable pub fail_deployment : {B : Type 0} → DeploymentStatus → Cause → Site B → Ended B
fail_deployment st cause w =
    let progress = st.updated * 100 / max st.total 1 in
    record {
      status = record st { status = failed; error = some cause };
      error = some cause;
      site = record w { deployer = update_last_record failed progress w.deployer };
    }

module _ {B : Type 0} (env : Env B) (plan : DeploymentPlan) where
  -- `markRollbackFailed`.
  unfoldable pub mark_rollback_failed : DeploymentStatus → Cause → Site B → Ended B
  mark_rollback_failed st cause w = record {
    status = record st { status = rollback_failed; error = some cause };
    error = some cause;
    site = record {
      deployer = update_last_record rollback_failed 0 w.deployer;
      bucket = (set_rollback_failed env.store st.service_name true w.bucket).1;
    };
  }

  -- The loop of `revertDeployment` over the touched copies: an error ends it.
  unfoldable pub resent : ServiceAllocation → Deployer → Bool × B → Option Cause × Site B
  resent a d (false, b) = (
    some rollback_send,
    record { deployer = record_rollback_step a.node_id plan send_update false d; bucket = b },
  )
  resent a d (true, b) = (
    none,
    record { deployer = record_rollback_step a.node_id plan send_update true d; bucket = b },
  )

  unfoldable pub remarked :
      ServiceAllocation → Deployer → Option KvError × B → Option Cause × Site B
  unfolding resent
  remarked a d (some e, b) = (
    some rollback_mark,
    record { deployer = record_rollback_step a.node_id plan mark_pending false d; bucket = b },
  )
  remarked a d (none, b) =
      resent a (record_rollback_step a.node_id plan mark_pending true d)
        (send_update_command env plan a.node_id plan.current_version b)

  unfoldable pub revert_one : ServiceAllocation → Site B → Option Cause × Site B
  unfolding remarked
  revert_one a w =
      remarked a w.deployer (Rollout.mark_pending env plan a plan.current_version w.bucket)

  unfoldable pub revert_all : List ServiceAllocation → Site B → Option Cause × Site B
  revert_all [] w = (none, w)
  revert_all (a ∷ as') w =
      let (e, w₁) = revert_one a w in
      let rest = revert_all as' w₁ in elim e [ none ↦ rest | some c ↦ (some c, w₁) ]

  -- The end of `revertDeployment`, once the touched copies were sent back.
  unfoldable pub settled : DeploymentStatus → Cause → Bool × B → Deployer → Ended B
  unfolding mark_rollback_failed pin_version
  settled st cause (false, b) d =
      mark_rollback_failed st rollback_unhealthy
        (record { deployer = record_rollback_step [] plan wait_health false d; bucket = b })
  settled st cause (true, b) d = record {
    status = record st { status = reverted };
    error = some cause;
    site = record {
      deployer = update_last_record reverted 0 (record_rollback_step [] plan wait_health true d);
      bucket =
          pin_version env.store plan.service_name
            (record { current = plan.current_version; previous = [] }) b;
    };
  }

  unfoldable pub sent_back :
      DeploymentStatus → Cause → List ServiceAllocation → Option Cause × Site B → Ended B
  unfolding settled
  sent_back st cause touched (some c, w) = mark_rollback_failed st c w
  sent_back st cause touched (none, w) =
      settled st cause
        (wait_for_batch_health env.store env.watch plan.update_strategy.min_healthy_time touched
          w.bucket)
        w.deployer

  unfoldable pub with_touched : DeploymentStatus → Cause → List ServiceAllocation → Site B → Ended B
  unfolding revert_all sent_back
  with_touched st cause [] w = record {
    status = record st { status = reverted };
    error = some cause;
    site = record w { deployer = update_last_record reverted 0 w.deployer };
  }
  with_touched st cause (a ∷ as') w = sent_back st cause (a ∷ as') (revert_all (a ∷ as') w)

  -- There is no version to go back to.
  unfoldable pub no_way_back : Bool
  no_way_back = same plan.current_version [] || same plan.current_version (codes "unknown")

  -- `revertDeployment`.
  unfoldable pub revert_deployment : DeploymentStatus → Cause → Site B → Ended B
  unfolding with_touched no_way_back
  revert_deployment st cause w =
      let st' = record st { phase = revert; error = some cause } in
      if no_way_back
      then fail_deployment st' no_previous w
      else with_touched st' cause w.deployer.touched w

  -- `handleFailure`.
  unfoldable pub handle_failure : DeploymentStatus → Cause → Site B → Ended B
  unfolding revert_deployment
  handle_failure st cause w =
      if plan.update_strategy.auto_revert
      then revert_deployment st cause w
      else fail_deployment st cause w
