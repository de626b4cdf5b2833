-- ===== src/Deployer/Run.antt =====
-- `Deploy` of asty/internal/ops/deployer/deployer.go.
use asty.Common.{ℕ, true, false, [], Option, none, some, length, if◌then◌else◌}
use asty.Common.Int.{pos, ltb_ℤ}
use asty.Deployer.Plan.{
  running, completed, canary, rolling, complete, Cause, DeploymentPlan, DeploymentStatus, Deployer,
  claim, release, reset_touched,
}
use asty.Deployer.History.{begin_record, update_last_record}
use asty.Deployer.Rollout.{Site, Env, deploy_canary_with_retries, rolling_update}
use asty.Deployer.Revert.{Ended, pin_version, set_deploy_gate, handle_failure}

-- What `Deploy` comes to: `ErrDeployInFlight`, a loop without an end, or a run that has ended.
pub data Deployed (B : Type 0) : Type 0 where
  already_in_flight : Deployed B
  endless : Deployed B
  ended : Ended B → Deployed B

module _ {B : Type 0} (env : Env B) (plan : DeploymentPlan) where
  -- The two deferred calls.
  unfoldable pub leave : Ended B → Ended B
  unfolding set_deploy_gate
  leave r = record r {
    site = record {
      deployer = release plan.service_name r.site.deployer;
      bucket = set_deploy_gate env.store plan.service_name false r.site.bucket;
    };
  }

  unfoldable pub first_status : DeploymentStatus
  first_status = record {
    service_name = plan.service_name;
    status = running;
    phase = canary;
    updated = 0;
    total = length plan.allocations;
    canary_healthy = false;
    error = none;
  }

  -- The end of a run whose rolling update goes well.
  unfoldable pub succeed : DeploymentStatus → Site B → Ended B
  unfolding pin_version
  succeed st w = record {
    status = record st { phase = complete; status = completed };
    error = none;
    site = record {
      deployer = update_last_record completed 100 w.deployer;
      bucket =
          pin_version env.store plan.service_name
            (record { current = plan.target_version; previous = [] }) w.bucket;
    };
  }

  -- From the answer of the rolling update on.
  unfoldable pub rolled : DeploymentStatus → Option (Option Cause × ℕ × Site B) → Deployed B
  unfolding leave succeed
  rolled st none = endless
  rolled st (some (some c, n, w)) =
      ended (leave (handle_failure env plan (record st { updated = n }) c w))
  rolled st (some (none, n, w)) = ended (leave (succeed (record st { updated = n }) w))

  unfoldable pub roll : DeploymentStatus → Site B → Deployed B
  unfolding rolled
  roll st w = rolled (record st { phase = rolling }) (rolling_update env plan w)

  -- From the answer of the canary on.
  unfoldable pub after_canary : DeploymentStatus → Option Cause × Site B → Deployed B
  unfolding roll
  after_canary st (some c, w) = ended (leave (handle_failure env plan st c w))
  after_canary st (none, w) = roll (record st { canary_healthy = true }) w

  -- What `Deploy` does before it dispatches.
  unfoldable pub prepare : ℕ → Deployer → B → Site B
  unfolding pin_version set_deploy_gate
  prepare now d b = record {
    deployer = begin_record plan now (reset_touched d);
    bucket = set_deploy_gate env.store plan.service_name true (
        pin_version env.store plan.service_name
          (record { current = plan.target_version; previous = plan.current_version }) b);
  }

  unfoldable pub begin : Deployer → B → Deployed B
  unfolding prepare after_canary first_status roll
  begin d b =
      let (now, b₁) = env.store.now b in
      let w = prepare now d b₁ in
      if ltb_ℤ (pos 0) plan.update_strategy.canary
      then after_canary first_status (deploy_canary_with_retries env plan w)
      else roll first_status w

  unfoldable pub deploy : Site B → Deployed B
  unfolding begin
  deploy w = elim (claim plan.service_name w.deployer) [
    | none ↦ already_in_flight
    | some d ↦ begin d w.bucket
  ]
