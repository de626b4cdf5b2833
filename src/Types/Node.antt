-- ===== src/Types/Node.antt =====
-- asty/internal/core/types/node.go: a node of the cluster and its status. The metrics that only
-- dashboards read are left out of the record.
pub mod Freshness
use asty.Common.{ℕ, Bool, true, false, ◌&&◌, Option, none, some, Text, if◌then◌else◌}
use asty.Common.Int.{ℤ, pos, sub_ℕ, ltb_ℤ, leb_ℤ}

pub data NodeStatus : Type 0 where
  joining ready stale draining drained paused down deleted : NodeStatus

pub NodeStatus-discrete : Discrete NodeStatus
NodeStatus-discrete = hlevel

pub record NodeInfo : Type 0 where
  pub id : Text
  pub datacenter : Text
  pub status : NodeStatus
  pub last_seen : ℕ
  pub cpu_available : ℤ
  pub memory_available : ℤ

-- 30 s and 2 min.
abbrev pub fresh_after : ℕ
fresh_after = 30000000000

abbrev pub stale_after : ℕ
stale_after = 120000000000

unfoldable pub is_ready : NodeStatus → Bool
is_ready ready = true
is_ready _ = false

unfoldable pub is_healthy : NodeInfo → ℕ → Bool
unfolding is_ready
is_healthy n at = is_ready n.status && ltb_ℤ (sub_ℕ at n.last_seen) (pos stale_after)

-- The second `switch` of `EffectiveStatus`, on the age of the heartbeat.
unfoldable pub status_of_age : ℤ → NodeStatus
status_of_age age =
    if leb_ℤ (pos stale_after) age
    then down
    else if leb_ℤ (pos fresh_after) age
    then stale
    else ready

effective : NodeStatus → ℤ → NodeStatus
effective joining age = joining
effective draining age = draining
effective drained age = drained
effective paused age = paused
effective deleted age = deleted
effective _ age = status_of_age age

unfoldable pub effective_status : NodeInfo → ℕ → NodeStatus
unfolding effective status_of_age
effective_status n at = effective n.status (sub_ℕ at n.last_seen)
