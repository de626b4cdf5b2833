-- ===== src/Types/Allocation.antt =====
-- asty/internal/core/types/allocation.go and scaling.go: a copy of a service on a node, its status,
-- and the autoscaler's cooldown record.
pub mod Cooldown
use asty.Common.{ℕ, ◌/◌, Bool, true, false, Option, none, some, Text, ltb, if◌then◌else◌}
use asty.Common.Int.{ℤ, sub_ℕ, pos, ltb_ℤ}

-- `AllocationStatus`. `unset` is the empty string, with which the deployer's tracker starts.
pub data AllocationStatus : Type 0 where
  pending starting running restarting stopping stopped failed deleted unset : AllocationStatus

pub AllocationStatus-discrete : Discrete AllocationStatus
AllocationStatus-discrete = hlevel

pub record ServiceAllocation : Type 0 where
  pub id : Text
  pub service_name : Text
  pub node_id : Text
  pub status : AllocationStatus
  pub version : Text
  pub pid : ℕ
  pub cpu_usage : ℕ  -- percent
  pub memory_usage : ℕ  -- MB
  pub restarts : ℕ
  pub consecutive_failures : ℕ
  pub created_at : Option ℕ
  pub updated_at : Option ℕ

unfoldable pub is_live : AllocationStatus → Bool
is_live pending = true
is_live starting = true
is_live running = true
is_live restarting = true
is_live stopping = true
is_live _ = false

unfoldable pub occupies : AllocationStatus → Bool
occupies pending = true
occupies starting = true
occupies running = true
occupies restarting = true
occupies stopping = true
occupies failed = true
occupies _ = false

-- A status test, `s == t`.
unfoldable pub is_status : AllocationStatus → AllocationStatus → Bool
is_status pending pending = true
is_status starting starting = true
is_status running running = true
is_status restarting restarting = true
is_status stopping stopping = true
is_status stopped stopped = true
is_status failed failed = true
is_status deleted deleted = true
is_status unset unset = true
is_status _ _ = false

pub record ServiceCooldown : Type 0 where
  pub last_scale_up : Option ℕ
  pub last_scale_down : Option ℕ
  pub idle_since : Option ℕ
  pub rollback_failed : Bool
  pub deploy_in_progress : Bool

-- `ScalingAction`; `never` is the empty string.
pub data ScalingAction : Type 0 where
  scale_up scale_down scale_none never : ScalingAction

pub record CooldownStatus : Type 0 where
  pub up_active : Bool
  pub down_active : Bool
  pub last_action : ScalingAction
  pub last_action_at : ℕ  -- unix seconds

-- `t.Unix()`.
abbrev pub unix : ℕ → ℕ
unix t = t / 1000000000

-- The first `if` of `Status`.
status_up : Option ℕ → ℕ → ℕ → CooldownStatus
status_up none at up = record {
  up_active = false;
  down_active = false;
  last_action = never;
  last_action_at = 0;
}
status_up (some t) at up = record {
  up_active = ltb_ℤ (sub_ℕ at t) (pos up);
  down_active = false;
  last_action = scale_up;
  last_action_at = unix t;
}

-- The second `if` of `Status`.
status_down : Option ℕ → CooldownStatus → ℕ → ℕ → CooldownStatus
status_down none s at down = s
status_down (some t) s at down =
    let s' = record s { down_active = ltb_ℤ (sub_ℕ at t) (pos down) } in
    if ltb s.last_action_at (unix t)
    then record s' { last_action = scale_down; last_action_at = unix t }
    else s'

-- `ServiceCooldown.Status`; the windows `up` and `down` are not negative.
unfoldable pub status : ServiceCooldown → ℕ → ℕ → ℕ → CooldownStatus
unfolding status_up status_down
status c at up down = status_down c.last_scale_down (status_up c.last_scale_up at up) at down
