-- ===== src/Dashboard/Services.antt =====
-- asty/internal/api/dashboard: services_scale.go, and the handlers of allocations.go. A body that does
-- not parse is `none`.
use asty.Common.{
  ℕ, Bool, true, false, ◌&&◌, Option, none, some, List, [], ◌∷◌, Text, codes, if◌then◌else◌, length,
  value_or,
}
use asty.Common.Int.{ℤ, pos, ltb_ℤ, eqb_ℤ, ◌-ℤ◌}
use asty.Types.Allocation.{ServiceAllocation}
use asty.Types.Service.{ServiceDefinition}
use asty.Kv.Store.{KvError}
use asty.Kv.Allocations.{list_allocations, delete_allocation}
use asty.Kv.Nodes.{list_nodes}
use asty.Kv.Settings.{set_service_scale}
use asty.Scheduler.Helpers.{live_allocations, pick_removal_victims}
use asty.Drainer.Plan.{is_system}
use asty.Dashboard.Api.{
  Api, Reply, scaled, allocation_restarted, allocation_deleted, write_error, find_service,
  alloc_by_id,
}

module _ {B : Type 0} (api : Api B) where
  unfoldable pub deleted_record : Option KvError × B → Option Reply × B
  unfolding write_error
  deleted_record (none, b) = (none, b)
  deleted_record (some e, b) = (some (write_error 500 (codes "delete allocation failed")), b)

  unfoldable pub stop_confirmed : Text → Text → Bool × B → Option Reply × B
  unfolding deleted_record write_error
  stop_confirmed service node (false, b) =
      (some (write_error 504 (codes "stop did not confirm")), b)
  stop_confirmed service node (true, b) =
      deleted_record (delete_allocation api.store service node b)

  unfoldable pub stop_sent : Text → Text → Bool × B → Option Reply × B
  unfolding stop_confirmed write_error
  stop_sent service node (false, b) = (some (write_error 500 (codes "stop dispatch failed")), b)
  stop_sent service node (true, b) = stop_confirmed service node (api.wait_stopped service node b)

  -- `stopAndDeleteAllocation`: the error that it answers with, or none.
  unfoldable pub stop_and_delete_allocation : Text → Text → B → Option Reply × B
  unfolding stop_sent
  stop_and_delete_allocation service node b =
      stop_sent service node (api.stop_service node service b)

  unfoldable pub after_stop : (B → Option Reply × B) → Option Reply × B → Option Reply × B
  after_stop rest (some r, b) = (some r, b)
  after_stop rest (none, b) = rest b

  -- The loop over the victims.
  unfoldable pub stop_victims : Text → List ServiceAllocation → B → Option Reply × B
  unfolding after_stop stop_and_delete_allocation
  stop_victims service [] b = (none, b)
  stop_victims service (v ∷ vs) b =
      after_stop (stop_victims service vs) (stop_and_delete_allocation service v.node_id b)

  unfoldable pub shrink : Text → ℤ → List ServiceAllocation → B → Option Reply × B
  unfolding stop_victims
  shrink service count live b =
      let (nodes, b₁) = list_nodes api.store b in
      let victims = pick_removal_victims live (value_or [] nodes) (pos (length live) -ℤ count) in
      let stopped = stop_victims service victims b₁ in
      if ltb_ℤ count (pos (length live)) then stopped else (none, b)

  -- `recordManualScaleEvent`.
  unfoldable pub record_manual_scale : Text → ℕ → ℤ → B → B
  record_manual_scale service before' count b =
      if eqb_ℤ (pos before') count then b else api.publish_scale service before' count b

  unfoldable pub scale_end : Text → ℤ → ℕ → Option Reply × B → Reply × B
  unfolding record_manual_scale
  scale_end service count before' (some r, b) = (r, b)
  scale_end service count before' (none, b) =
      let b₁ = record_manual_scale service before' count (api.reconcile_service service b) in
      let (post, b₂) = list_allocations api.store service b₁ in
      (
        record { code = 200; body = scaled count (length (live_allocations (value_or [] post))) },
        b₂,
      )

  unfoldable pub scale_stored : Text → ℤ → Option KvError × B → Reply × B
  unfolding scale_end shrink write_error
  scale_stored service count (some e, b) = (write_error 500 (codes "failed to persist scale"), b)
  scale_stored service count (none, b) =
      let (allocs, b₁) = list_allocations api.store service b in
      let live = live_allocations (value_or [] allocs) in
      scale_end service count (length live) (shrink service count live b₁)

  unfoldable pub scale_found : ServiceDefinition → Text → ℤ → B → Reply × B
  unfolding scale_stored write_error
  scale_found svc service count b =
      let stored = scale_stored service count (set_service_scale api.store service count b) in
      if is_system svc.type
      then (write_error 409 (codes "cannot scale a system-type service"), b)
      else if ltb_ℤ (pos 0) api.max_copies && ltb_ℤ api.max_copies count
      then (write_error 400 (codes "count exceeds autoscaler max_copies"), b)
      else stored

  -- `handleServiceScale`.
  unfoldable pub handle_service_scale : Text → Option ℤ → B → Reply × B
  unfolding scale_found write_error
  handle_service_scale service none b = (write_error 400 (codes "invalid request body"), b)
  handle_service_scale service (some count) b =
      let found : Reply × B = elim (find_service service api.services) [
        | none ↦ (write_error 404 (codes "service not found"), b)
        | some svc ↦ scale_found svc service count b
      ] in
      if ltb_ℤ count (pos 0) then (write_error 400 (codes "count must be >= 0"), b) else found

  unfoldable pub restart_end : Text → Bool × B → Reply × B
  unfolding write_error
  restart_end id (false, b) = (write_error 500 (codes "restart dispatch failed"), b)
  restart_end id (true, b) = (record { code = 200; body = allocation_restarted id }, b)

  unfoldable pub restart_found : Text → Option ServiceAllocation × B → Reply × B
  unfolding restart_end write_error
  restart_found id (none, b) = (write_error 404 (codes "allocation not found"), b)
  restart_found id (some a, b) = restart_end id (api.restart_service a.node_id a.service_name b)

  -- `handleAllocationRestart`.
  unfoldable pub handle_allocation_restart : Text → B → Reply × B
  unfolding restart_found
  handle_allocation_restart id b = restart_found id (alloc_by_id api id b)

  unfoldable pub stop_end : Text → Text → Option Reply × B → Reply × B
  stop_end id service (some r, b) = (r, b)
  stop_end id service (none, b) =
      (record { code = 200; body = allocation_deleted id }, api.reconcile_service service b)

  unfoldable pub is_system_service : Text → Bool
  is_system_service name = elim (find_service name api.services) [
    | none ↦ false
    | some svc ↦ is_system svc.type
  ]

  unfoldable pub stop_found : Text → Option ServiceAllocation × B → Reply × B
  unfolding stop_end is_system_service write_error
  stop_found id (none, b) = (write_error 404 (codes "allocation not found"), b)
  stop_found id (some a, b) =
      let stopped =
        stop_end id a.service_name (stop_and_delete_allocation a.service_name a.node_id b) in
      if is_system_service a.service_name
      then (write_error 409 (codes "cannot stop a system-service allocation"), b)
      else stopped

  -- `handleAllocationStop`.
  unfoldable pub handle_allocation_stop : Text → B → Reply × B
  unfolding stop_found
  handle_allocation_stop id b = stop_found id (alloc_by_id api id b)
