-- ===== src/Dashboard/Nodes.antt =====
-- asty/internal/api/dashboard/nodes.go: pause, drain, kill and the state of a drain. A body that does
-- not parse is `none`.
use asty.Common.{
  ℕ, Bool, true, false, not, Option, none, some, List, [], ◌∷◌, Text, codes, same, if◌then◌else◌,
}
use asty.Types.Allocation.{ServiceAllocation}
use asty.Types.Node.{NodeStatus, NodeInfo, ready, paused}
use asty.Kv.Store.{KvError}
use asty.Kv.Allocations.{delete_allocation}
use asty.Kv.Nodes.{get_node, update_node, remove_node}
use asty.Drainer.Plan.{Env, DrainStatus}
use asty.Drainer.Moves.{is_draining}
use asty.Drainer.Manager.{
  Manager, Started, already_draining, nothing_to_do, begun, Resumed, back, is_drained, start,
  resume, get_status,
}
use asty.Dashboard.Api.{Api, Reply, node_status, node_killed, write_error, allocs_by_node}

module _ {B : Type 0} (api : Api B) where
  unfoldable pub pause_written : Bool → Option KvError × B → Reply × B
  unfolding write_error
  pause_written pause (some e, b) = (write_error 500 (codes "update node failed"), b)
  pause_written pause (none, b) = (
    record { code = 200; body = node_status (if pause then codes "paused" else codes "ready") },
    b,
  )

  unfoldable pub pause_found : Bool → Option NodeInfo × B → Reply × B
  unfolding pause_written is_draining is_drained write_error
  pause_found pause (none, b) = (write_error 404 (codes "node not found"), b)
  pause_found pause (some n, b) =
      let n₁ = record n { status = if pause then paused else ready } in
      let written = pause_written pause (update_node api.store n₁ b) in
      if (if is_draining n.status then true else is_drained n.status)
      then (write_error 400 (codes "node is draining/drained; resume drain first"), b)
      else written

  -- `handleNodePause`; a body that does not parse pauses.
  unfoldable pub handle_node_pause : Text → Option Bool → B → Reply × B
  unfolding pause_found
  handle_node_pause node body b =
      let pause : Bool = elim body [ none ↦ true | some p ↦ p ] in
      pause_found pause (get_node api.store node b)

  -- The errors of the deletions are dropped.
  unfoldable pub delete_allocations : List ServiceAllocation → B → B
  delete_allocations [] b = b
  delete_allocations (a ∷ as') b =
      delete_allocations as' (delete_allocation api.store a.service_name a.node_id b).1

  unfoldable pub kill_node : Text → B → Reply × B
  unfolding delete_allocations allocs_by_node
  kill_node node b =
      let (ok, b₁) = api.shutdown_agent node b in
      let (allocs, b₂) = allocs_by_node api node b₁ in
      let b₃ = delete_allocations allocs b₂ in
      (record { code = 200; body = node_killed ok }, (remove_node api.store node b₃).1)

  -- `handleNodeKill`, with the name that confirms it.
  unfoldable pub handle_node_kill : Text → Option Text → B → Reply × B
  unfolding kill_node write_error
  handle_node_kill node none b = (write_error 400 (codes "invalid request body"), b)
  handle_node_kill node (some name) b =
      let killed = kill_node node b in
      if not (same name node)
      then (write_error 400 (codes "confirm_name must match node id"), b)
      else if not (api.is_stabilized b)
      then (write_error 409 (codes "cluster is still stabilizing"), b)
      else killed

-- What the handlers of a drain answer: a code, and the state of a drain, a status or an error.
pub data DrainReply : Type 0 where
  drain_state : ℕ → DrainStatus → DrainReply
  steady : ℕ → NodeStatus → DrainReply
  drain_message : ℕ → Text → DrainReply

unfoldable pub start_reply : Started → DrainReply
start_reply (already_draining none) = drain_message 400 (codes "drain failed")
start_reply (already_draining (some st)) = drain_state 200 st
start_reply (nothing_to_do st) = drain_state 200 st
start_reply (begun place allocs st) = drain_state 200 st
start_reply other = drain_message 400 (codes "drain failed")

unfoldable pub resume_reply : Resumed → DrainReply
resume_reply back = drain_message 200 (codes "drain cancelled, node resumed")
resume_reply other = drain_message 400 (codes "resume failed")

module _ {B : Type 0} (env : Env B) (node : Text) where
  -- `handleNodeDrain`; a body that does not parse starts a drain.
  unfoldable pub handle_node_drain : Option Bool → Manager → B → DrainReply × Manager × B
  unfolding start resume start_reply resume_reply
  handle_node_drain (some false) m b =
      let (r, m₁, b₁) = resume env node m b in (resume_reply r, m₁, b₁)
  handle_node_drain body m b = let (r, m₁, b₁) = start env node m b in (start_reply r, m₁, b₁)

  unfoldable pub steady_reply : Option NodeInfo × B → DrainReply × B
  steady_reply (none, b) = (drain_message 404 (codes "node not found"), b)
  steady_reply (some n, b) = (steady 200 n.status, b)

  -- `handleNodeDrainStatus`.
  unfoldable pub handle_node_drain_status : Manager → B → DrainReply × B
  unfolding steady_reply get_status
  handle_node_drain_status m b = elim (get_status node m) [
    | none ↦ steady_reply (get_node env.store node b)
    | some st ↦ (drain_state 200 st, b)
  ]
