-- ===== src/Deployer/Canaries.antt =====
-- The repeated batches of `deployCanaryWithRetries` (asty/internal/ops/deployer).
use asty.Common.{ℕ, zero, suc, refl, Option, none, some}
use asty.Deployer.Plan.{
  Cause, unhealthy, mark_failed, send_failed, cancelled, no_previous, canary_failed,
  canary_unhealthy, rollback_mark, rollback_send, rollback_unhealthy, DeploymentPlan,
}
use asty.Deployer.Rollout.{Site, Env, run_batch, canary_batch, canary_tries}
use asty.Deployer.Coverage.{Keeps-refl, Keeps-trans, Dispatches}
use asty.Deployer.Waves.{run_batch-Dispatches}

module _ {B : Type 0} (env : Env B) (plan : DeploymentPlan) where
  tried :
      (w : Site B) (r rest : Option Cause × Site B)
      → Dispatches (canary_batch env plan) w r
      → Dispatches (canary_batch env plan) r.1 rest
      → Dispatches (canary_batch env plan) w (elim r.0 [
        | none ↦ (none, r.1)
        | some c ↦ elim c [
          | unhealthy ↦ rest
          | mark_failed ↦ (some (canary_failed mark_failed), r.1)
          | send_failed ↦ (some (canary_failed send_failed), r.1)
          | other ↦ (some (canary_failed other), r.1)
        ]
      ])
  tried w (none, w₁) rest d e = d
  tried w (some unhealthy, w₁) (none, w₂) d e = (Keeps-trans w w₁ w₂ d e.0, e.1)
  tried w (some unhealthy, w₁) (some c, w₂) d e = Keeps-trans w w₁ w₂ d e
  tried w (some mark_failed, w₁) rest d e = d
  tried w (some send_failed, w₁) rest d e = d
  tried w (some cancelled, w₁) rest d e = d
  tried w (some no_previous, w₁) rest d e = d
  tried w (some (canary_failed c), w₁) rest d e = d
  tried w (some canary_unhealthy, w₁) rest d e = d
  tried w (some rollback_mark, w₁) rest d e = d
  tried w (some rollback_send, w₁) rest d e = d
  tried w (some rollback_unhealthy, w₁) rest d e = d

  pub canary_tries-Dispatches :
      (n : ℕ) (w : Site B) → Dispatches (canary_batch env plan) w (canary_tries env plan n w)
  unfolding canary_tries
  canary_tries-Dispatches zero w = Keeps-refl w w refl
  canary_tries-Dispatches (suc n) w =
      let r = run_batch env plan (canary_batch env plan) w in
      tried w r (canary_tries env plan n r.1)
        (run_batch-Dispatches env plan (canary_batch env plan) w) (canary_tries-Dispatches n r.1)
