-- ===== src/Drainer/Manager.antt =====
-- asty/internal/ops/drainer/manager.go: the drains of a server. A drain's status is an object that
-- the entry of the manager and the goroutine of the drain share; `drains` holds its place in `ops`.
use asty.Common.{
  ℕ, Bool, true, false, ◌++◌, Option, none, some, List, [], ◌∷◌, Text, if◌then◌else◌, length,
  get_elem?, set, ◌>>=◌,
}
use asty.Common.Int.{pos}
use asty.Common.Map.{Map, lookup, insert, erase}
use asty.Types.Node.{NodeInfo, NodeStatus}
use asty.Kv.Store.{KvError}
use asty.Kv.Nodes.{get_node, update_node}
use asty.Drainer.Plan.{
  draining, drained, DrainStatus, AllocOnNode, Env, collect_allocs, publish_drain_event,
}
use asty.Drainer.Moves.{is_draining, run_drain}

pub record Manager : Type 0 where
  pub drains : Map ℕ
  pub ops : List DrainStatus

unfoldable pub new_drain_manager : Manager
new_drain_manager = record { drains = []; ops = [] }

-- What `Start` comes to. `begun` starts the goroutine of the drain at its place.
pub data Started : Type 0 where
  already_draining : Option DrainStatus → Started
  node_unknown already_drained not_written : Started
  nothing_to_do : DrainStatus → Started
  begun : ℕ → List AllocOnNode → DrainStatus → Started

-- What `Resume` comes to.
pub data Resumed : Type 0 where
  back no_node not_draining update_failed : Resumed

unfoldable pub is_drained : NodeStatus → Bool
is_drained NodeStatus.drained = true
is_drained _ = false

unfoldable pub get_status : Text → Manager → Option DrainStatus
get_status node m = lookup node m.drains >>= get_elem? m.ops

-- The deferred call of `runDrain`.
unfoldable pub leave_drain : Text → Manager → Manager
leave_drain node m = record m { drains = erase node m.drains }

unfoldable pub initial_status : Text → ℕ → DrainStatus
initial_status node n = record {
  node_id = node;
  status = draining;
  total = n;
  migrated = 0;
  remaining = pos n;
  current = [];
  errors = [];
}

unfoldable pub register : Text → List AllocOnNode → DrainStatus → Manager → Started × Manager
register node allocs st m = (
  begun (length m.ops) allocs st,
  record { drains = insert node (length m.ops) m.drains; ops = m.ops ++ st ∷ [] },
)

module _ {B : Type 0} (env : Env B) (node : Text) where
  -- `Start`, from the first write of the node on.
  unfoldable pub opened :
      NodeInfo → List AllocOnNode → Manager → Option KvError × B → Started × Manager × B
  unfolding register initial_status
  opened n allocs m (some e, b) = (not_written, m, b)
  opened n [] m (none, b) =
      let b₁ = (update_node env.store (record n { status = NodeStatus.drained }) b).1 in
      let st : DrainStatus = record (initial_status node 0) { status = drained } in
      (nothing_to_do st, m, publish_drain_event env st b₁)
  opened n (a ∷ as') m (none, b) =
      let st = initial_status node (length (a ∷ as')) in
      let (r, m₁) = register node (a ∷ as') st m in (r, m₁, publish_drain_event env st b)

  unfoldable pub found_node : Manager → Option NodeInfo × B → Started × Manager × B
  unfolding opened is_drained
  found_node m (none, b) = (node_unknown, m, b)
  found_node m (some n, b) =
      let (allocs, b₁) = collect_allocs env node b in
      let rest =
        opened n allocs m (update_node env.store (record n { status = NodeStatus.draining }) b₁) in
      if is_drained n.status then (already_drained, m, b) else rest

  unfoldable pub start_entry : Option ℕ → Manager → B → Started × Manager × B
  unfolding found_node
  start_entry (some p) m b = (already_draining (get_elem? m.ops p), m, b)
  start_entry none m b = found_node m (get_node env.store node b)

  -- `Start`.
  unfoldable pub start : Manager → B → Started × Manager × B
  unfolding start_entry
  start m b = start_entry (lookup node m.drains) m b

  unfoldable pub written_back : Option KvError × B → Resumed × B
  written_back (none, b) = (back, b)
  written_back (some e, b) = (update_failed, b)

  unfoldable pub readied : Option NodeInfo × B → Resumed × B
  unfolding is_drained is_draining written_back
  readied (none, b) = (no_node, b)
  readied (some n, b) =
      if (if is_draining n.status then true else is_drained n.status)
      then written_back (update_node env.store (record n { status = NodeStatus.ready }) b)
      else (not_draining, b)

  -- `Resume`. The cancel is seen by the goroutine of the drain.
  unfoldable pub resume : Manager → B → Resumed × Manager × B
  unfolding readied leave_drain
  resume m b = let (r, b₁) = readied (get_node env.store node b) in (r, leave_drain node m, b₁)

  -- The goroutine of a drain, to its end.
  unfoldable pub drain_at : ℕ → List AllocOnNode → DrainStatus → Manager → B → Manager × B
  unfolding run_drain leave_drain
  drain_at p allocs st m b =
      let (st₁, b₁) = run_drain env node allocs (length allocs) st b in
      (leave_drain node (record m { ops = set m.ops p st₁ }), b₁)
