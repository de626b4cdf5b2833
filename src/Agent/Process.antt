-- ===== src/Agent/Process.antt =====
-- asty/internal/agent/services.go, stop.go and restart.go. The agent's own state is the table of its
-- processes, the services with a health probe, and the process IDs with metrics.
use asty.Common.{
  ℕ, suc, Bool, true, false, ◌&&◌, ◌==◌, Option, none, some, List, [], ◌∷◌, Text, if◌then◌else◌,
  keep, not,
}
use asty.Common.Int.{ℤ, pos, leb_ℤ}
use asty.Common.Map.{Map, lookup, insert, erase, put, del}
use asty.Types.Allocation.{is_status, pending, running, restarting, stopping, stopped, failed}
use asty.Types.Service.{ServiceDefinition, get_attempts}
use asty.Kv.Store.{Store, KvError}
use asty.Kv.Allocations.{Change, mutate_allocation}

pub record Process : Type 0 where
  pub pid : ℕ
  pub has_failed : Bool
  pub svc : ServiceDefinition

pub record Agent : Type 0 where
  pub processes : Map Process
  pub probes : List Text
  pub metered : List ℕ

unfoldable pub new_agent : Agent
new_agent = record { processes = []; probes = []; metered = [] }

-- The callbacks of `MutateAllocation`. `StartedAt` is left out.
unfoldable pub refreshed : ℕ → Change Bool
refreshed pid c a =
    if a.pid == pid && is_status a.status running
    then (c, none)
    else (c, some (record a { pid = pid; status = running; consecutive_failures = 0 }))

unfoldable pub started : ℕ → Change Bool
started pid c a = (c, some (record a { pid = pid; status = running; consecutive_failures = 0 }))

unfoldable pub marked_restarting : Change Bool
marked_restarting c a = (c, some (record a { status = restarting; restarts = suc a.restarts }))

unfoldable pub to_pending : Change Bool
to_pending c a = (c, some (record a { status = pending; pid = 0 }))

unfoldable pub to_stopped : Change Bool
to_stopped c a = (c, some (record a { status = stopped; pid = 0 }))

unfoldable pub stopped_if_not : Change Bool
stopped_if_not c a =
    if is_status a.status stopped
    then (c, none)
    else (c, some (record a { status = stopped; pid = 0 }))

unfoldable pub to_stopping : Change Bool
to_stopping c a =
    if (if is_status a.status stopped then true else is_status a.status failed)
    then (c, none)
    else (c, some (record a { status = stopping }))

-- The first callback of `attemptRestart`, which sets `giveUp` where the budget is used up.
unfoldable pub on_failure : ℤ → Change Bool
on_failure budget give_up a =
    if leb_ℤ budget (pos a.consecutive_failures)
    then (true, some (record a { status = failed }))
    else (
      give_up,
      some (record a {
        status = restarting;
        restarts = suc a.restarts;
        consecutive_failures = suc a.consecutive_failures;
      }),
    )

-- The second, after the delay.
unfoldable pub requeued : Change Bool
requeued c a =
    if is_status a.status restarting
    then (c, some (record a { status = pending; pid = 0 }))
    else (c, none)

-- What the agent needs: the bucket, its node, what starts a process (with all before it: `none` is an
-- error), a stop, a kill, whether a service has a probe, and the wait before a restart, which a
-- shutdown ends.
pub record Env (B : Type 0) : Type 0 where
  pub store : Store B
  pub node : Text
  pub spawn : ServiceDefinition → B → Option ℕ × B
  pub halt : ℕ → B → B
  pub kill : ℕ → B → B
  pub is_probed : ServiceDefinition → Bool
  pub pause : ServiceDefinition → B → Bool × B

-- `killAndForget` and `stopProcess` without the signals.
unfoldable pub forget_process : Text → Process → Agent → Agent
forget_process name p a = record {
  processes = erase name a.processes;
  probes = del name a.probes;
  metered = keep (λ i. not (i == p.pid)) a.metered;
}

-- `dropProcess`.
unfoldable pub drop_process : Text → Agent → Agent
drop_process name a = record a { processes = erase name a.processes }

-- A process that runs: its entry, its probe and its metrics.
unfoldable pub enter_process : Bool → ServiceDefinition → ℕ → Agent → Agent
enter_process probed svc pid a = record {
  processes = insert svc.name (record { pid = pid; has_failed = false; svc = svc }) a.processes;
  probes = if probed then put svc.name a.probes else a.probes;
  metered = pid ∷ a.metered;
}

-- What `attemptRestart` comes to.
pub data Attempt : Type 0 where
  not_recorded gave_up shut_down not_requeued awaiting_start : Attempt

module _ {B : Type 0} (env : Env B) where
  -- The bucket after a call of `MutateAllocation` whose error is dropped.
  unfoldable pub mutated : Text → Change Bool → B → B
  mutated name f b = (mutate_allocation env.store name env.node f false b).2

  -- `StartService` with a process that was spawned or not; the answer is whether it succeeded.
  unfoldable pub spawned : ServiceDefinition → Agent → Option ℕ × B → Bool × Agent × B
  unfolding enter_process mutated started
  spawned svc a (none, b) = (false, a, b)
  spawned svc a (some pid, b) =
      (true, enter_process (env.is_probed svc) svc pid a, mutated svc.name (started pid) b)

  -- `StartService`, by the process that is there.
  unfoldable pub start_found : ServiceDefinition → Agent → Option Process → B → Bool × Agent × B
  unfolding spawned mutated refreshed
  start_found svc a (some p) b = (true, a, mutated svc.name (refreshed p.pid) b)
  start_found svc a none b = spawned svc a (env.spawn svc b)

  unfoldable pub start_service : ServiceDefinition → Agent → B → Bool × Agent × B
  unfolding start_found
  start_service svc a b = start_found svc a (lookup svc.name a.processes) b

  unfoldable pub halt_found : Text → Agent → Option Process → B → Agent × B
  unfolding forget_process
  halt_found name a none b = (a, b)
  halt_found name a (some p) b = (forget_process name p a, env.halt p.pid b)

  -- `stopProcess`.
  unfoldable pub stop_process : Text → Agent → B → Agent × B
  unfolding halt_found
  stop_process name a b = halt_found name a (lookup name a.processes) b

  unfoldable pub stop_found : Text → Agent → Option Process → B → Bool × Agent × B
  unfolding stop_process mutated stopped_if_not to_stopping to_stopped
  stop_found name a none b = (false, a, mutated name stopped_if_not b)
  stop_found name a (some p) b =
      let (a₁, b₁) = stop_process name a (mutated name to_stopping b) in
      (true, a₁, mutated name to_stopped b₁)

  -- `StopService`; the answer is whether the service was running.
  unfoldable pub stop_service : Text → Agent → B → Bool × Agent × B
  unfolding stop_found
  stop_service name a b = stop_found name a (lookup name a.processes) b

  unfoldable pub stop_names : List Text → Agent → B → Agent × B
  unfolding stop_service
  stop_names [] a b = (a, b)
  stop_names (n ∷ ns) a b = let (ok, a₁, b₁) = stop_service n a b in stop_names ns a₁ b₁

  unfoldable pub names_of : Map Process → List Text
  names_of [] = []
  names_of ((n, p) ∷ m) = n ∷ names_of m

  -- `stopAllProcesses`.
  unfoldable pub stop_all_processes : Agent → B → Agent × B
  unfolding stop_names names_of
  stop_all_processes a b = stop_names (names_of a.processes) a b

  -- `RestartService`.
  unfoldable pub restarted : ServiceDefinition → Bool × Agent × B → Bool × Agent × B
  unfolding mutated to_pending
  restarted svc (true, a, b) = (true, a, b)
  restarted svc (false, a, b) = (false, a, mutated svc.name to_pending b)

  unfoldable pub after_mark :
      ServiceDefinition → Agent → Option KvError × Bool × B → Bool × Agent × B
  unfolding stop_process start_service restarted
  after_mark svc a (some e, c, b) = (false, a, b)
  after_mark svc a (none, c, b) =
      let (a₁, b₁) = stop_process svc.name a b in restarted svc (start_service svc a₁ b₁)

  unfoldable pub restart_service : ServiceDefinition → Agent → B → Bool × Agent × B
  unfolding after_mark marked_restarting
  restart_service svc a b =
      after_mark svc a (mutate_allocation env.store svc.name env.node marked_restarting false b)

  -- `lookupFailed`.
  unfoldable pub lookup_failed : Text → Agent → Option Process
  lookup_failed name a = elim (lookup name a.processes) [
    | none ↦ none
    | some p ↦ if p.has_failed then some p else none
  ]

  -- `attemptRestart`, from the end of the wait on.
  unfoldable pub after_requeue : Agent → Option KvError × Bool × B → Attempt × Agent × B
  after_requeue a (none, c, b) = (awaiting_start, a, b)
  after_requeue a (some e, c, b) = (not_requeued, a, b)

  unfoldable pub after_pause : Text → Agent → Bool × B → Attempt × Agent × B
  unfolding requeued after_requeue
  after_pause name a (false, b) = (shut_down, a, b)
  after_pause name a (true, b) =
      after_requeue a (mutate_allocation env.store name env.node requeued false b)

  unfoldable pub after_failure :
      Text → Process → Agent → Option KvError × Bool × B → Attempt × Agent × B
  unfolding drop_process forget_process after_pause
  after_failure name p a (some e, give_up, b) = (not_recorded, a, b)
  after_failure name p a (none, true, b) = (gave_up, drop_process name a, b)
  after_failure name p a (none, false, b) =
      after_pause name (forget_process name p a) (env.pause p.svc (env.kill p.pid b))

  unfoldable pub attempt_restart : Text → Process → Agent → B → Attempt × Agent × B
  unfolding after_failure on_failure
  attempt_restart name p a b =
      after_failure name p a (
        mutate_allocation env.store name env.node (on_failure (get_attempts p.svc.restart)) false b)
