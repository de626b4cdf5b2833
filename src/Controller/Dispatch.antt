-- ===== src/Controller/Dispatch.antt =====
-- asty/internal/ops/reconciler/reconcile.go: start commands and pruning. `dispatch` stands for the
-- field of that name, the call to the agent: whether it succeeded, and the state after it. `now` is
-- the clock of the pass. The queue, the bucket and the events sent out are one state.
use asty.Common.{
  ℕ, Bool, true, false, not, ◌&&◌, Option, none, some, List, [], ◌∷◌, Text, if◌then◌else◌,
}
use asty.Common.Int.{pos, sub_ℕ, leb_ℤ, ltb_ℤ}
use asty.Types.Allocation.{ServiceAllocation, ScalingAction, is_status, pending, starting, failed}
use asty.Types.Service.{ServiceDefinition, get_attempts}
use asty.Kv.Store.{Store, KvError}
use asty.Kv.Allocations.{Change, mutate_allocation, list_allocations, delete_allocation}
use asty.Workqueue.{Workqueue, add_rate_limited}

pub data ClusterEvent : Type 0 where
  alloc_failed : Text → Text → ℕ → ClusterEvent
  scaled : ScalingAction → Text → Text → ClusterEvent

pub record World (B : Type 0) : Type 0 where
  pub queue : Workqueue
  pub bucket : B
  pub events : List ClusterEvent

-- 90 s.
abbrev pub starting_stuck_after : ℕ
starting_stuck_after = 90000000000

-- The age of a record that was never stamped is beyond every limit.
unfoldable pub is_overdue : ℕ → Option ℕ → Bool
is_overdue now none = true
is_overdue now (some t) = leb_ℤ (pos starting_stuck_after) (sub_ℕ now t)

unfoldable pub is_stuck : ℕ → ServiceAllocation → Bool
unfolding is_overdue
is_stuck now a = is_status a.status starting && is_overdue now a.updated_at

-- The callbacks of the three calls of `MutateAllocation`. The first sets the variable `advanced`.
unfoldable pub to_starting : Change Bool
to_starting advanced a =
    if is_status a.status pending
    then (true, some (record a { status = starting }))
    else (advanced, none)

unfoldable pub back_to_pending : Change Bool
back_to_pending c a =
    (c, if is_status a.status starting then some (record a { status = pending }) else none)

unfoldable pub unstick : ℕ → Change Bool
unfolding is_stuck
unstick now c a = (c, if is_stuck now a then some (record a { status = pending }) else none)

unfoldable pub is_spent : ServiceDefinition → ServiceAllocation → Bool
is_spent svc a =
    is_status a.status failed && not (ltb_ℤ (pos a.consecutive_failures) (get_attempts svc.restart))

module _ {B : Type 0} (s : Store B) where
  -- The loop of `unstickStarting`.
  unfoldable pub unstick_starting : ServiceDefinition → ℕ → List ServiceAllocation → B → B
  unfolding unstick
  unstick_starting svc now [] b = b
  unstick_starting svc now (a ∷ as') b = unstick_starting svc now as' (
      if is_stuck now a
      then (mutate_allocation s svc.name a.node_id (unstick now) false b).2
      else b)

  -- The rest of `dispatchOne`, from the answer of the agent on.
  unfoldable pub after_dispatch :
      ServiceDefinition → Text → ℕ → Workqueue → Bool × B → Workqueue × B
  unfolding back_to_pending
  after_dispatch svc node_id now q (true, b) = (q, b)
  after_dispatch svc node_id now q (false, b) = (
    add_rate_limited q svc.name now,
    (mutate_allocation s svc.name node_id back_to_pending false b).2,
  )

  module _ (dispatch : Text → ServiceDefinition → B → Bool × B) where
    unfoldable pub after_guard :
        ServiceDefinition → Text → ℕ → Workqueue → Option KvError × Bool × B → Workqueue × B
    unfolding after_dispatch
    after_guard svc node_id now q (some e, advanced, b) = (q, b)
    after_guard svc node_id now q (none, false, b) = (q, b)
    after_guard svc node_id now q (none, true, b) =
        after_dispatch svc node_id now q (dispatch node_id svc b)

    unfoldable pub dispatch_one : ServiceDefinition → Text → ℕ → Workqueue → B → Workqueue × B
    unfolding after_guard to_starting
    dispatch_one svc node_id now q b =
        after_guard svc node_id now q (mutate_allocation s svc.name node_id to_starting false b)

    -- The loop of `dispatchPending`.
    unfoldable pub dispatch_all :
        ServiceDefinition → ℕ → List ServiceAllocation → Workqueue → B → Workqueue × B
    dispatch_all svc now [] q b = (q, b)
    dispatch_all svc now (a ∷ as') q b =
        let (q', b') = dispatch_one svc a.node_id now q b in
        dispatch_all svc now as' (if is_status a.status pending then q' else q)
          (if is_status a.status pending then b' else b)

    unfoldable pub dispatch_pending : ServiceDefinition → ℕ → Workqueue → B → Workqueue × B
    unfolding dispatch_all unstick_starting
    dispatch_pending svc now q b =
        let (allocs, b₁) = list_allocations s svc.name b in
        elim allocs [
          | none ↦ (q, b₁)
          | some as' ↦
              let (again, b₂) = list_allocations s svc.name (unstick_starting svc now as' b₁) in
              elim again [ none ↦ (q, b₂) | some fresh ↦ dispatch_all svc now fresh q b₂ ]
        ]

  -- The loop of `pruneFailed`: the events of the copies that are deleted, and the state.
  unfoldable pub prune_all : ServiceDefinition → List ServiceAllocation → B → List ClusterEvent × B
  prune_all svc [] b = ([], b)
  prune_all svc (a ∷ as') b =
      let (e, b₁) = delete_allocation s svc.name a.node_id b in
      let (es, b₂) = prune_all svc as' (if is_spent svc a then b₁ else b) in
      if not (is_spent svc a) then (es, b₂) else elim e [
        | none ↦ (alloc_failed svc.name a.node_id a.restarts ∷ es, b₂)
        | some x ↦ (es, b₂)
      ]

  unfoldable pub prune_failed : ServiceDefinition → B → List ClusterEvent × B
  unfolding prune_all is_spent
  prune_failed svc b =
      let (allocs, b₁) = list_allocations s svc.name b in
      elim allocs [ none ↦ ([], b₁) | some as' ↦ prune_all svc as' b₁ ]
