-- ===== src/Drainer/Moves.antt =====
-- asty/internal/ops/drainer/migrate.go, system.go and run.go: what happens to one allocation, and the
-- drain of a node. The source runs a goroutine for each allocation, at most four at a time for those
-- that move; here they run one after the other, in the order in which they are started.
use asty.Common.{
  ℕ, suc, Bool, true, false, ◌++◌, Option, none, some, List, [], ◌∷◌, Text, if◌then◌else◌,
}
use asty.Common.Int.{pos, sub_ℕ}
use asty.Types.Allocation.{pending}
use asty.Types.Node.{NodeInfo, NodeStatus}
use asty.Kv.Store.{KvError}
use asty.Kv.Allocations.{create_allocation, delete_allocation}
use asty.Kv.Nodes.{get_node, update_node}
use asty.Scheduler.Reconcile.{select_nearest}
use asty.Drainer.Plan.{
  DrainState, drained, stuck, Fault, delete_failed, create_failed, DrainStatus, AllocOnNode, Env,
  has_other_ready_node, split_by_type, publish_drain_event,
}
use asty.Drainer.Waits.{wait_for_stopped, wait_for_healthy_on_node, wait_for_healthy_replacement}

unfoldable pub record_error : Text → Fault → DrainStatus → DrainStatus
record_error name f st = record st { errors = st.errors ++ (name, f) ∷ [] }

-- The error of a wait, if there is one.
unfoldable pub noted : Text → Option Fault → DrainStatus → DrainStatus
unfolding record_error
noted name none st = st
noted name (some f) st = record_error name f st

-- The counters of `bumpMigrated`.
unfoldable pub bumped : ℕ → DrainStatus → DrainStatus
bumped total st = record st {
  migrated = suc st.migrated;
  remaining = sub_ℕ total (suc st.migrated);
}

unfoldable pub is_draining : NodeStatus → Bool
is_draining NodeStatus.draining = true
is_draining _ = false

unfoldable pub has_errors : DrainStatus → Bool
has_errors st = elim st.errors [ [] ↦ false | e ∷ es ↦ true ]

-- The final status of the node and of the drain.
unfoldable pub final_node : Bool → NodeStatus
final_node true = NodeStatus.draining
final_node false = NodeStatus.drained

unfoldable pub final_drain : Bool → DrainState
final_drain true = stuck
final_drain false = drained

module _ {B : Type 0} (env : Env B) (node : Text) where
  unfoldable pub bump_migrated : ℕ → DrainStatus → B → DrainStatus × B
  unfolding bumped
  bump_migrated total st b = let st₁ = bumped total st in (st₁, publish_drain_event env st₁ b)

  unfoldable pub mark_current : Text → DrainStatus → B → DrainStatus × B
  mark_current name st b =
      let st₁ : DrainStatus = record st { current = name } in (st₁, publish_drain_event env st₁ b)

  -- `dismantleAndConfirm`; the errors of the stop and of the delete are only logged.
  unfoldable pub dismantle_and_confirm : AllocOnNode → ℕ → DrainStatus → B → DrainStatus × B
  unfolding bump_migrated noted
  dismantle_and_confirm a total st b =
      let (sent, b₁) = env.stop_service node a.svc.name b in
      let (e, b₂) = wait_for_stopped env node a.svc b₁ in
      let (d, b₃) = delete_allocation env.store a.svc.name node b₂ in
      bump_migrated total (noted a.svc.name e st) b₃

  -- `placeReplacement` without a target: whether the source allocation is deleted, and the error.
  unfoldable pub fall_back : AllocOnNode → Option KvError × B → (Bool × Option Fault) × B
  fall_back a (some e, b) = ((true, some delete_failed), b)
  fall_back a (none, b) =
      let (e, b₁) = wait_for_healthy_replacement env node a.svc b in ((true, e), b₁)

  unfoldable pub placed_on : Text → AllocOnNode → Option KvError × B → (Bool × Option Fault) × B
  placed_on target a (some e, b) = ((false, some create_failed), b)
  placed_on target a (none, b) =
      let (e, b₁) = wait_for_healthy_on_node env target a.svc b in ((false, e), b₁)

  unfoldable pub targeted : AllocOnNode → Option NodeInfo × B → (Bool × Option Fault) × B
  unfolding fall_back placed_on
  targeted a (none, b) = fall_back a (delete_allocation env.store a.svc.name node b)
  targeted a (some n, b) = placed_on n.id a (
      create_allocation env.store
        (record {
          id = [];
          service_name = a.svc.name;
          node_id = n.id;
          status = pending;
          version = a.alloc.version;
          pid = 0;
          cpu_usage = 0;
          memory_usage = 0;
          restarts = 0;
          consecutive_failures = 0;
          created_at = none;
          updated_at = none;
        })
        b)

  -- `placeReplacement`.
  unfoldable pub place_replacement : AllocOnNode → B → (Bool × Option Fault) × B
  unfolding targeted
  place_replacement a b = targeted a (select_nearest env.store env.config env.matrix node a.svc b)

  -- `finalizeMigration`.
  unfoldable pub finalize_migration : AllocOnNode → Bool → ℕ → DrainStatus → B → DrainStatus × B
  unfolding bump_migrated noted
  finalize_migration a gone total st b =
      let (sent, b₁) = env.stop_service node a.svc.name b in
      let (st₁, b₂) = bump_migrated total st b₁ in
      let (e, b₃) = wait_for_stopped env node a.svc b₂ in
      let (d, b₄) = delete_allocation env.store a.svc.name node b₃ in
      if gone then (st₁, b₂) else (noted a.svc.name e st₁, b₄)

  unfoldable pub moved : AllocOnNode → ℕ → DrainStatus → (Bool × Option Fault) × B → DrainStatus × B
  unfolding finalize_migration record_error
  moved a total st ((gone, some f), b) = (record_error a.svc.name f st, b)
  moved a total st ((gone, none), b) = finalize_migration a gone total st b

  -- The goroutine of a regular allocation.
  unfoldable pub migrate : AllocOnNode → ℕ → DrainStatus → B → DrainStatus × B
  unfolding mark_current moved place_replacement
  migrate a total st b =
      let (st₁, b₁) = mark_current a.alloc.service_name st b in
      moved a total st₁ (place_replacement a b₁)

  unfoldable pub dismantle_all : List AllocOnNode → ℕ → DrainStatus → B → DrainStatus × B
  unfolding dismantle_and_confirm
  dismantle_all [] total st b = (st, b)
  dismantle_all (a ∷ as') total st b =
      let (st₁, b₁) = dismantle_and_confirm a total st b in dismantle_all as' total st₁ b₁

  -- A cancel stops the loop.
  unfoldable pub migrate_all : List AllocOnNode → ℕ → DrainStatus → B → DrainStatus × B
  unfolding migrate
  migrate_all [] total st b = (st, b)
  migrate_all (a ∷ as') total st b =
      let (st₁, b₁) = migrate a total st b in
      let rest = migrate_all as' total st₁ b₁ in if env.cancelled_in b then (st, b) else rest

  unfoldable pub settle_node : NodeStatus → Option NodeInfo × B → B
  unfolding is_draining
  settle_node final (none, b) = b
  settle_node final (some n, b) =
      if is_draining n.status then (update_node env.store (record n { status = final }) b).1 else b

  -- `completeNodeDrain`.
  unfoldable pub complete_node_drain : DrainStatus → B → DrainStatus × B
  unfolding settle_node final_node final_drain has_errors
  complete_node_drain st b =
      let bad = has_errors st in
      let b₁ = settle_node (final_node bad) (get_node env.store node b) in
      let st₁ : DrainStatus = record st {
        status = final_drain bad;
        current = [];
        remaining = pos 0;
      } in
      (st₁, publish_drain_event env st₁ b₁)

  -- The two groups: without another ready node all are stopped in place.
  unfoldable pub groups : List AllocOnNode → Bool → List AllocOnNode × List AllocOnNode
  unfolding split_by_type
  groups allocs others =
      let (sys, reg) = split_by_type allocs in if others then (sys, reg) else (sys ++ reg, [])

  -- `runDrain`, but for the entry of the manager that it removes at its end.
  unfoldable pub run_drain : List AllocOnNode → ℕ → DrainStatus → B → DrainStatus × B
  unfolding groups dismantle_all migrate_all complete_node_drain
  run_drain allocs total st b =
      let (others, b₁) = has_other_ready_node env node b in
      let (sys, reg) = groups allocs others in
      let (st₁, b₂) = dismantle_all sys total st b₁ in
      let (st₂, b₃) = migrate_all reg total st₁ b₂ in
      if env.cancelled_in b₃ then (st₂, b₃) else complete_node_drain st₂ b₃
