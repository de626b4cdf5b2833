-- ===== src/Agent/Heartbeat.antt =====
-- asty/internal/agent/heartbeat.go: the status of a node in its heartbeat.
use asty.Common.{ℕ, Bool, true, false, ◌||◌, Option, none, some, List, [], ◌∷◌, if◌then◌else◌, ◌==◌}
use asty.Types.Node.{NodeStatus, joining, ready, draining, drained, paused, NodeInfo}
use asty.Kv.Store.{Store, KvError}
use asty.Kv.Nodes.{get_node, update_node}

unfoldable pub is_operator_status : NodeStatus → Bool
is_operator_status draining = true
is_operator_status drained = true
is_operator_status paused = true
is_operator_status _ = false

-- The end of `finalizeNodeStatus`, for a status that its `switch` does not have: the one that is kept,
-- or one by the capacity.
unfoldable pub restored : Option NodeStatus → ℕ → ℕ → NodeStatus
restored (some s) cpu memory = s
restored none cpu memory = if cpu == 0 || memory == 0 then joining else ready

-- `finalizeNodeStatus`: the status that was read, `none` for a failed read, the status that is kept and
-- the totals. It gives the status to publish and the one to keep.
unfoldable pub finalize_node_status :
    Option NodeStatus → Option NodeStatus → ℕ → ℕ → NodeStatus × Option NodeStatus
unfolding restored
finalize_node_status (some draining) last cpu memory = (draining, some draining)
finalize_node_status (some drained) last cpu memory = (drained, some drained)
finalize_node_status (some paused) last cpu memory = (paused, some paused)
finalize_node_status (some ready) last cpu memory = (ready, none)
finalize_node_status (some joining) last cpu memory = (joining, none)
finalize_node_status _ last cpu memory = (restored last cpu memory, last)

module _ {B : Type 0} (s : Store B) where
  unfoldable pub status_read : Option NodeInfo × B → Option NodeStatus
  status_read (none, b) = none
  status_read (some n, b) = some n.status

  -- One beat of `publishHeartbeat`: the record with its resources, the kept status, the totals.
  unfoldable pub publish_heartbeat :
      NodeInfo
      → Option NodeStatus
      → ℕ
      → ℕ
      → B
      → (NodeStatus × Option NodeStatus) × (Option KvError × B)
  unfolding status_read finalize_node_status get_node update_node
  publish_heartbeat n last cpu memory b =
      let found = get_node s n.id b in
      let final = finalize_node_status (status_read found) last cpu memory in
      (final, update_node s (record n { status = final.0 }) found.1)

  -- The beats of the loop of `publishHeartbeat`, each with the record that it has and the totals: what
  -- each reads and what it publishes.
  unfoldable pub beats :
      List (NodeInfo × ℕ × ℕ) → Option NodeStatus → B → List (Option NodeStatus × NodeStatus)
  unfolding publish_heartbeat
  beats [] last b = []
  beats ((n, cpu, memory) ∷ ns) last b =
      let r = publish_heartbeat n last cpu memory b in
      (status_read (get_node s n.id b), r.0.0) ∷ beats ns r.0.1 r.1.1
