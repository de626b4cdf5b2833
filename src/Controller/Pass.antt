-- ===== src/Controller/Pass.antt =====
-- `reconcile`, `autoscaleOnce` and one turn of `runWorker` (asty/internal/ops/reconciler).
use asty.Common.{
  ℕ, Bool, true, false, Option, none, some, List, [], ◌∷◌, ◌++◌, Text, same, if◌then◌else◌,
}
use asty.Types.Allocation.{ScalingAction, scale_up, scale_down, scale_none, never}
use asty.Types.Node.{NodeInfo}
use asty.Types.Service.{ServiceDefinition, ServiceType, system, service, other}
use asty.Kv.Store.{Store}
use asty.Scheduler.Helpers.{Config}
use asty.Scheduler.Reconcile.{SchedulerError, reconcile_service}
use asty.Autoscaler.Evaluate.{ScalingDecision, Outcome, failed_with, decided, evaluate_service}
use asty.Autoscaler.Execute.{ExecuteError, ScalingEvent, execute_scaling_decision}
use asty.Workqueue.{
  Workqueue, Got, blocks, stopped, got, get, done, add_rate_limited, forget, add_locked,
}
use asty.Controller.Dispatch.{World, ClusterEvent, scaled, dispatch_pending, prune_failed}

unfoldable pub find_service : List ServiceDefinition → Text → Option ServiceDefinition
find_service [] name = none
find_service (svc ∷ svcs) name =
    let rest = find_service svcs name in if same svc.name name then some svc else rest

unfoldable pub enqueue_all : List ServiceDefinition → Workqueue → Workqueue
enqueue_all [] q = q
enqueue_all (svc ∷ svcs) q = enqueue_all svcs (add_locked q svc.name)

-- The node that the event of a decision names.
unfoldable pub event_of : ScalingDecision → ServiceDefinition → ClusterEvent
event_of d svc = scaled d.action svc.name (elim d.action [
  | scale_up ↦ d.target_node
  | scale_down ↦ d.remove_node
  | scale_none ↦ d.target_node
  | never ↦ d.target_node
])

unfoldable pub is_noop : ScalingAction → Bool
is_noop scale_up = false
is_noop scale_down = false
is_noop scale_none = true
is_noop never = false

module _ {B : Type 0} (s : Store B) (cfg : Config) (traffic : NodeInfo → Bool)
    (dispatch : Text → ServiceDefinition → B → Bool × B) (services : List ServiceDefinition) where
  unfoldable pub executed :
      ScalingDecision
      → ServiceDefinition
      → (Option ExecuteError × Option ScalingEvent) × B
      → List ClusterEvent × B
  unfolding event_of
  executed d svc ((some e, event), b) = ([], b)
  executed d svc ((none, event), b) = (event_of d svc ∷ [], b)

  unfoldable pub act_on : ServiceDefinition → Outcome × B → List ClusterEvent × B
  unfolding executed is_noop
  act_on svc (failed_with e, b) = ([], b)
  act_on svc (decided d, b) =
      if is_noop d.action then ([], b) else executed d svc (execute_scaling_decision s cfg d svc b)

  unfoldable pub autoscale_once : ServiceDefinition → B → List ClusterEvent × B
  unfolding act_on
  autoscale_once svc b = act_on svc (evaluate_service s cfg traffic svc b)

  unfoldable pub maybe_autoscale : ServiceType → ServiceDefinition → B → List ClusterEvent × B
  unfolding autoscale_once
  maybe_autoscale service svc b = autoscale_once svc b
  maybe_autoscale system svc b = ([], b)
  maybe_autoscale (other t) svc b = ([], b)

  -- The rest of `reconcile`, from the scheduler's answer on.
  unfoldable pub scheduled :
      ServiceDefinition → ℕ → World B → Option SchedulerError × B → Bool × World B
  unfolding maybe_autoscale
  scheduled svc now w (some e, b) = (true, record w { bucket = b })
  scheduled svc now w (none, b) =
      let (q, b₁) = dispatch_pending s dispatch svc now w.queue b in
      let (pruned, b₂) = prune_failed s svc b₁ in
      let (scaling, b₃) = maybe_autoscale svc.type svc b₂ in
      (false, record w { queue = q; bucket = b₃; events = (w.events ++ pruned) ++ scaling })

  -- `reconcile`: whether it failed, and the state after it.
  unfoldable pub reconcile : Text → ℕ → World B → Bool × World B
  unfolding scheduled find_service
  reconcile key now w = elim (find_service services key) [
    | none ↦ (false, w)
    | some svc ↦ scheduled svc now w (reconcile_service s cfg svc w.bucket)
  ]

  -- What `runWorker` does with the key after `reconcile`.
  unfoldable pub settle_key : Text → ℕ → Bool × World B → World B
  settle_key key now (failed, w) =
      let q = if failed then add_rate_limited w.queue key now else forget w.queue key in
      record w { queue = done q key }

  unfoldable pub worked : ℕ → World B → Got → Option (World B)
  unfolding settle_key reconcile
  worked now w blocks = none
  worked now w stopped = none
  worked now w (got key q) = some (settle_key key now (reconcile key now (record w { queue = q })))

  -- A turn of `runWorker`; `none` where it waits or has ended.
  unfoldable pub work_once : ℕ → World B → Option (World B)
  unfolding worked
  work_once now w = worked now w (get w.queue)
