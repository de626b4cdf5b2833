-- ===== src/Deployer/Rollout.antt =====
-- asty/internal/ops/deployer/rolling.go and canary.go. `restart` is the dispatcher of update commands,
-- `watch` what wakes a wait, `stop` whether the context is cancelled. An answer `none` of a stage
-- means that it goes well.
use asty.Common.{
  ℕ, zero, suc, ◌+◌, Bool, true, false, List, [], ◌∷◌, Option, none, some, Text, min, if◌then◌else◌,
  length, take, drop,
}
use asty.Common.Int.{pos_part}
use asty.Types.Allocation.{ServiceAllocation, pending}
use asty.Types.Service.{ServiceDefinition}
use asty.Kv.Store.{Store, KvError}
use asty.Kv.Allocations.{Change, mutate_allocation}
use asty.Deployer.Plan.{
  Cause, mark_failed, send_failed, unhealthy, cancelled, canary_failed, canary_unhealthy,
  DeploymentPlan, Deployer, record_touched,
}
use asty.Deployer.Tracker.{Wake, wait_for_batch_health}

-- The deployer and the bucket.
pub record Site (B : Type 0) : Type 0 where
  pub deployer : Deployer
  pub bucket : B

-- The callback of `markPending`.
unfoldable pub to_version : Text → Change Bool
to_version version c a = (c, some (record a { version = version; status = pending }))

pub record Env (B : Type 0) : Type 0 where
  pub store : Store B
  pub restart : Text → ServiceDefinition → Text → B → Bool × B
  pub watch : List ServiceAllocation → B → List Wake × B
  pub stop : B → Bool

module _ {B : Type 0} (env : Env B) (plan : DeploymentPlan) where
  unfoldable pub mark_pending : ServiceAllocation → Text → B → Option KvError × B
  unfolding to_version
  mark_pending a version b =
      let (e, c, b₁) =
        mutate_allocation env.store plan.service_name a.node_id (to_version version) false b in
      (e, b₁)

  -- `sendUpdateCommand`: whether it succeeded. Without a definition of the service it fails.
  unfoldable pub send_update_command : Text → Text → B → Bool × B
  send_update_command node version b = elim plan.service [
    | none ↦ (false, b)
    | some svc ↦ env.restart node svc version b
  ]

  -- One turn of the loop of `dispatchBatch`, from the answers of its two calls on.
  unfoldable pub sent : ServiceAllocation → Deployer → Bool × B → Option Cause × Site B
  sent a d (false, b) = (some send_failed, record { deployer = d; bucket = b })
  sent a d (true, b) = (none, record { deployer = record_touched a d; bucket = b })

  unfoldable pub marked : ServiceAllocation → Deployer → Option KvError × B → Option Cause × Site B
  unfolding sent
  marked a d (some e, b) = (some mark_failed, record { deployer = d; bucket = b })
  marked a d (none, b) = sent a d (send_update_command a.node_id plan.target_version b)

  unfoldable pub dispatch_one : ServiceAllocation → Site B → Option Cause × Site B
  unfolding marked mark_pending send_update_command
  dispatch_one a w = marked a w.deployer (mark_pending a plan.target_version w.bucket)

  -- `dispatchBatch`, and the loop of `deployCanary`; the first error ends it.
  unfoldable pub dispatch_batch : List ServiceAllocation → Site B → Option Cause × Site B
  dispatch_batch [] w = (none, w)
  dispatch_batch (a ∷ as') w =
      let (e, w₁) = dispatch_one a w in
      let rest = dispatch_batch as' w₁ in elim e [ none ↦ rest | some c ↦ (some c, w₁) ]

  -- Dispatch and wait: the end of a round of the rolling update.
  unfoldable pub awaited : List ServiceAllocation → Option Cause × Site B → Option Cause × Site B
  awaited batch (some c, w) = (some c, w)
  awaited batch (none, w) =
      let (ok, b) =
        wait_for_batch_health env.store env.watch plan.update_strategy.min_healthy_time batch
          w.bucket in
      (if ok then none else some unhealthy, record w { bucket = b })

  unfoldable pub run_batch : List ServiceAllocation → Site B → Option Cause × Site B
  unfolding dispatch_batch awaited
  run_batch batch w = awaited batch (dispatch_batch batch w)

  -- The loop of `rollingUpdate` over the copies that remain, with so many rounds to go and `updated`
  -- copies done. The answer `none` is a loop that does not come to its end.
  unfoldable pub waves :
      ℕ → List ServiceAllocation → ℕ → Site B → Option (Option Cause × ℕ × Site B)
  waves n [] updated w = some (none, updated, w)
  waves zero (a ∷ as') updated w = none
  waves (suc n) (a ∷ as') updated w =
      let size = pos_part plan.update_strategy.max_parallel in
      let batch = take size (a ∷ as') in
      let (e, w₁) = run_batch batch w in
      let rest = waves n (drop size (a ∷ as')) (updated + length batch) w₁ in
      if env.stop w.bucket
      then some (some cancelled, updated, w)
      else elim e [ none ↦ rest | some c ↦ some (some c, updated, w₁) ]

  -- Where `rollingUpdate` starts, after the canaries.
  unfoldable pub start_index : ℕ
  start_index = min (pos_part plan.update_strategy.canary) (length plan.allocations)

  -- `rollingUpdate`: its answer, the count of updated copies and the state.
  unfoldable pub rolling_update : Site B → Option (Option Cause × ℕ × Site B)
  unfolding waves start_index
  rolling_update w =
      waves (length plan.allocations) (drop start_index plan.allocations) start_index w

  -- What `deployCanary` comes to.
  unfoldable pub canary_batch : List ServiceAllocation
  unfolding start_index
  canary_batch = take start_index plan.allocations

  -- `deployCanaryWithRetries`: an error of the dispatch ends it, and so does a healthy canary.
  unfoldable pub canary_tries : ℕ → Site B → Option Cause × Site B
  unfolding canary_batch
  canary_tries zero w = (some canary_unhealthy, w)
  canary_tries (suc n) w =
      let (e, w₁) = run_batch canary_batch w in
      let rest = canary_tries n w₁ in
      elim e [
        | none ↦ (none, w₁)
        | some c ↦ elim c [
          | unhealthy ↦ rest
          | mark_failed ↦ (some (canary_failed mark_failed), w₁)
          | send_failed ↦ (some (canary_failed send_failed), w₁)
          | other ↦ (some (canary_failed other), w₁)
        ]
      ]

  unfoldable pub deploy_canary_with_retries : Site B → Option Cause × Site B
  unfolding canary_tries
  deploy_canary_with_retries w = canary_tries (suc (pos_part plan.update_strategy.canary_retries)) w
