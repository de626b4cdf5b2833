-- ===== src/Deployer/Plan.antt =====
-- asty/internal/ops/deployer: types.go, states.go, touched.go and lifecycle.go. Times of records are
-- left out. An error is a constructor, not its text.
use asty.Common.{
  ℕ, Bool, false, ◌&&◌, ◌||◌, List, [], ◌∷◌, ◌++◌, Option, none, some, Text, same, if◌then◌else◌,
}
use asty.Common.Int.{ℤ}
use asty.Common.Map.{has, put, del}
use asty.Types.Allocation.{ServiceAllocation}
use asty.Types.Service.{ServiceDefinition}

-- `State` and `Phase`.
pub data State : Type 0 where
  running completed failed reverted rollback_failed : State

pub data Phase : Type 0 where
  canary rolling complete revert : Phase

-- Why a run ends without success.
pub data Cause : Type 0 where
  mark_failed send_failed unhealthy cancelled no_previous : Cause
  canary_failed : Cause → Cause
  canary_unhealthy : Cause
  rollback_mark rollback_send rollback_unhealthy : Cause

pub data RollbackAction : Type 0 where
  mark_pending send_update wait_health : RollbackAction

pub record RollbackStep : Type 0 where
  pub node_id : Text
  pub from_version : Text
  pub to_version : Text
  pub action : RollbackAction
  pub ok : Bool

-- The ID of a record is the service with the nanosecond at which the run began.
pub record DeploymentRecord : Type 0 where
  pub id : Text × ℕ
  pub service : Text
  pub version : Text
  pub by_canary : Bool
  pub status : State
  pub progress : ℕ
  pub rollback_steps : List RollbackStep

pub record UpdateStrategy : Type 0 where
  pub max_parallel : ℤ
  pub min_healthy_time : ℕ
  pub auto_revert : Bool
  pub canary : ℤ
  pub canary_retries : ℤ

pub record DeploymentPlan : Type 0 where
  pub service_name : Text
  pub current_version : Text
  pub target_version : Text
  pub update_strategy : UpdateStrategy
  pub allocations : List ServiceAllocation
  pub service : Option ServiceDefinition

pub record DeploymentStatus : Type 0 where
  pub service_name : Text
  pub status : State
  pub phase : Phase
  pub updated : ℕ
  pub total : ℕ
  pub canary_healthy : Bool
  pub error : Option Cause

-- The mutable fields of `Deployer`; the history is oldest first.
pub record Deployer : Type 0 where
  pub history : List DeploymentRecord
  pub in_flight : List Text
  pub touched : List ServiceAllocation

unfoldable pub new_deployer : Deployer
new_deployer = record { history = []; in_flight = []; touched = [] }

-- `claim`; `none` where a run is in flight.
unfoldable pub claim : Text → Deployer → Option Deployer
claim svc d =
    if has svc d.in_flight then none else some (record d { in_flight = put svc d.in_flight })

unfoldable pub release : Text → Deployer → Deployer
release svc d = record d { in_flight = del svc d.in_flight }

unfoldable pub is_in_flight : Text → Deployer → Bool
is_in_flight svc d = has svc d.in_flight

abbrev pub same_copy : ServiceAllocation → ServiceAllocation → Bool
same_copy a b = same a.service_name b.service_name && same a.node_id b.node_id

-- The loop of `recordTouched`.
unfoldable pub is_touched : ServiceAllocation → List ServiceAllocation → Bool
is_touched alloc [] = false
is_touched alloc (a ∷ as') = same_copy a alloc || is_touched alloc as'

unfoldable pub touch : ServiceAllocation → List ServiceAllocation → List ServiceAllocation
unfolding is_touched
touch alloc touched = if is_touched alloc touched then touched else touched ++ alloc ∷ []

unfoldable pub record_touched : ServiceAllocation → Deployer → Deployer
unfolding touch
record_touched alloc d = record d { touched = touch alloc d.touched }

unfoldable pub reset_touched : Deployer → Deployer
reset_touched d = record d { touched = [] }
