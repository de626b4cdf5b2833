-- ===== src/Drainer/Plan.antt =====
-- asty/internal/ops/drainer: the status of a drain, what the drainer needs of the server, and
-- inventory.go.
use asty.Common.{
  ℕ, Bool, true, false, not, ◌&&◌, Option, none, some, List, [], ◌∷◌, Text, same, if◌then◌else◌,
  any,
}
use asty.Common.Int.{ℤ}
use asty.Common.Map.{Map, lookup, insert}
use asty.Types.Allocation.{ServiceAllocation, is_live}
use asty.Types.Node.{NodeInfo, is_ready}
use asty.Types.Service.{ServiceDefinition, ServiceType, system, service, other}
use asty.Proximity.Matrix.{Matrix}
use asty.Scheduler.Helpers.{Config}
use asty.Kv.Store.{Store}
use asty.Kv.Nodes.{list_nodes, put_drain}
use asty.Kv.Allocations.{list_all_allocations}

pub data DrainState : Type 0 where
  draining drained stuck : DrainState

-- Why an allocation is not drained.
pub data Fault : Type 0 where
  watch_failed cancelled timed_out delete_failed create_failed : Fault

pub record DrainStatus : Type 0 where
  pub node_id : Text
  pub status : DrainState
  pub total : ℕ
  pub migrated : ℕ
  pub remaining : ℤ
  pub current : Text
  pub errors : List (Text × Fault)

-- `allocOnNode`.
pub record AllocOnNode : Type 0 where
  pub svc : ServiceDefinition
  pub alloc : ServiceAllocation

-- How the updates of a watch end: the channel closes, the drain is cancelled, or the deadline passes.
pub data Ending : Type 0 where
  closed called_off expired : Ending

-- The updates of a watch on one key (`none` is a delete), or no watch at all.
pub data Watched : Type 0 where
  no_watch : Watched
  updates : List (Option ServiceAllocation) → Ending → Watched

-- `DrainDeps`, the watches and the context. `cancelled_in` says whether the context of the drain is
-- cancelled. A watch of all allocations gives the updates up to the deadline or a cancel, and whether
-- it was a cancel.
pub record Env (B : Type 0) : Type 0 where
  pub store : Store B
  pub config : Config
  pub matrix : Matrix
  pub services : List ServiceDefinition
  pub stop_service : Text → Text → B → Bool × B
  pub watch : Text → Text → B → Watched × B
  pub watch_all : B → (List ServiceAllocation × Bool) × B
  pub cancelled_in : B → Bool
  pub marshal_status : DrainStatus → Option Text
  pub broadcast : Text → B → B

unfoldable pub by_name : Map ServiceDefinition → List ServiceDefinition → Map ServiceDefinition
by_name m [] = m
by_name m (s ∷ ss) = by_name (insert s.name s m) ss

-- The loop of `collectAllocs`.
unfoldable pub on_node : Map ServiceDefinition → Text → List ServiceAllocation → List AllocOnNode
on_node defs node [] = []
on_node defs node (a ∷ as') =
    let rest = on_node defs node as' in
    if same a.node_id node && is_live a.status
    then elim (lookup a.service_name defs) [
      | none ↦ rest
      | some svc ↦ record { svc = svc; alloc = a } ∷ rest
    ]
    else rest

unfoldable pub is_other_ready : Text → NodeInfo → Bool
is_other_ready node n = not (same n.id node) && is_ready n.status

unfoldable pub is_system : ServiceType → Bool
is_system system = true
is_system service = false
is_system (other t) = false

-- `splitByType`.
unfoldable pub split_by_type : List AllocOnNode → List AllocOnNode × List AllocOnNode
unfolding is_system
split_by_type [] = ([], [])
split_by_type (a ∷ as') =
    let (sys, reg) = split_by_type as' in
    if is_system a.svc.type then (a ∷ sys, reg) else (sys, a ∷ reg)

module _ {B : Type 0} (env : Env B) where
  -- `hasOtherReadyNode`.
  unfoldable pub has_other_ready_node : Text → B → Bool × B
  unfolding is_other_ready
  has_other_ready_node node b =
      let (nodes, b₁) = list_nodes env.store b in
      elim nodes [ none ↦ (false, b₁) | some ns ↦ (any (is_other_ready node) ns, b₁) ]

  -- `collectAllocs`.
  unfoldable pub collect_allocs : Text → B → List AllocOnNode × B
  unfolding on_node by_name
  collect_allocs node b =
      let (allocs, b₁) = list_all_allocations env.store b in
      elim allocs [ none ↦ ([], b₁) | some as' ↦ (on_node (by_name [] env.services) node as', b₁) ]

  -- `publishDrainEvent`: on the bus and in the bucket, errors dropped.
  unfoldable pub publish_drain_event : DrainStatus → B → B
  publish_drain_event st b = elim (env.marshal_status st) [
    | none ↦ b
    | some v ↦ (put_drain env.store st.node_id v (env.broadcast v b)).1
  ]
