-- ===== src/Drainer/Waits.antt =====
-- asty/internal/ops/drainer/wait.go, over `WatchAllocation` of asty/internal/infra/kv/watch.go. An
-- update that ends a wait comes while the context lives.
use asty.Common.{
  Bool, true, false, not, ◌&&◌, Option, none, some, List, Text, same, if◌then◌else◌, any,
}
use asty.Types.Allocation.{ServiceAllocation, is_status, running, stopped, failed}
use asty.Types.Service.{ServiceDefinition}
use asty.Kv.Allocations.{list_allocations}
use asty.Drainer.Plan.{
  Fault, watch_failed, cancelled, timed_out, Ending, closed, called_off, expired, Watched, no_watch,
  updates, Env,
}

unfoldable pub is_stopped : Option ServiceAllocation → Bool
is_stopped none = true
is_stopped (some a) = if is_status a.status stopped then true else is_status a.status failed

unfoldable pub is_running : Option ServiceAllocation → Bool
is_running none = false
is_running (some a) = is_status a.status running

-- After `WatchAllocation` returned without the update. A channel that closes is no error of the
-- watch, and no context is over.
unfoldable pub after_end : Ending → Option Fault
after_end closed = none
after_end called_off = some cancelled
after_end expired = some timed_out

unfoldable pub after_watch : (Option ServiceAllocation → Bool) → Watched → Option Fault
unfolding after_end
after_watch p no_watch = some watch_failed
after_watch p (updates us e) = if any p us then none else after_end e

-- A running copy of the service elsewhere.
unfoldable pub is_replacement : Text → Text → ServiceAllocation → Bool
is_replacement name drained a =
    same a.service_name name && (not (same a.node_id drained) && is_status a.status running)

unfoldable pub after_watch_all : Text → Text → List ServiceAllocation × Bool → Option Fault
unfolding is_replacement
after_watch_all name drained (us, off) =
    if any (is_replacement name drained) us
    then none
    else if off
    then some cancelled
    else some timed_out

unfoldable pub runs_elsewhere : Text → ServiceAllocation → Bool
runs_elsewhere drained a = not (same a.node_id drained) && is_status a.status running

module _ {B : Type 0} (env : Env B) where
  unfoldable pub wait_for_stopped : Text → ServiceDefinition → B → Option Fault × B
  unfolding after_watch is_stopped
  wait_for_stopped node svc b =
      let (w, b₁) = env.watch svc.name node b in (after_watch is_stopped w, b₁)

  unfoldable pub wait_for_healthy_on_node : Text → ServiceDefinition → B → Option Fault × B
  unfolding after_watch is_running
  wait_for_healthy_on_node node svc b =
      let (w, b₁) = env.watch svc.name node b in (after_watch is_running w, b₁)

  unfoldable pub healthy_replacement_exists : Text → Text → B → Bool × B
  unfolding runs_elsewhere
  healthy_replacement_exists name drained b =
      let (allocs, b₁) = list_allocations env.store name b in
      elim allocs [ none ↦ (false, b₁) | some as' ↦ (any (runs_elsewhere drained) as', b₁) ]

  unfoldable pub wait_for_healthy_replacement : Text → ServiceDefinition → B → Option Fault × B
  unfolding healthy_replacement_exists after_watch_all
  wait_for_healthy_replacement drained svc b =
      let (exists, b₁) = healthy_replacement_exists svc.name drained b in
      let (seen, b₂) = env.watch_all b₁ in
      if exists then (none, b₁) else (after_watch_all svc.name drained seen, b₂)
