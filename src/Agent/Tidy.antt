-- ===== src/Agent/Tidy.antt =====
-- The probes of an agent belong to its processes.
use asty.Common.{ℕ, ◌≡◌, Bool, true, false, ◌||◌, Option, none, some, List, [], ◌∷◌, Text, arith}
use asty.Common.Map.{is_some, lookup, insert, has, has-put, has-del, lookup-insert, lookup-erase}
use asty.Kv.Store.{KvError}
use asty.Types.Service.{ServiceDefinition}
use asty.Agent.Process.{
  Process, Agent, Env, Attempt, gave_up, forget_process, enter_process, spawned, start_found,
  start_service, halt_found, stop_process, stop_found, stop_service, restarted, after_mark,
  restart_service, lookup_failed, after_requeue, after_pause, after_failure, attempt_restart,
}

abbrev pub IsTidy : Agent → Type 0
IsTidy a = (n : Text) → has n a.probes ≡ true → is_some (lookup n a.processes) ≡ true

enter_process-IsTidy :
    (probed : Bool) (svc : ServiceDefinition) (pid : ℕ) (a : Agent)
    → IsTidy a
    → IsTidy (enter_process probed svc pid a)
unfolding enter_process
enter_process-IsTidy true svc pid a t n h = ground (
  arith,
  t n,
  h,
  has-put svc.name n a.probes,
  lookup-insert svc.name n (record { pid = pid; has_failed = false; svc = svc }) a.processes,
)
enter_process-IsTidy false svc pid a t n h = ground (
  arith,
  t n,
  h,
  lookup-insert svc.name n (record { pid = pid; has_failed = false; svc = svc }) a.processes,
)

forget_process-IsTidy :
    (name : Text) (p : Process) (a : Agent) → IsTidy a → IsTidy (forget_process name p a)
unfolding forget_process
forget_process-IsTidy name p a t n h =
    ground (arith, t n, h, has-del name n a.probes, lookup-erase name n a.processes)

-- What can happen to an agent: a command of the controller, a process that exits on its own, or the
-- name of one that comes out of the channel of failures.
pub data Event : Type 0 where
  starts restarts : ServiceDefinition → Event
  stops crashes exits : Text → Event

-- `monitor` of a process that nobody stopped. Its callback puts the name into the channel, or drops it
-- where the channel is full: an `exits` may follow at any time, or never.
unfoldable pub crash_found : Text → Agent → Option Process → Agent
crash_found name a none = a
crash_found name a (some p) = record a {
  processes = insert name (record p { has_failed = true }) a.processes;
}

unfoldable pub crash : Text → Agent → Agent
unfolding crash_found
crash name a = crash_found name a (lookup name a.processes)

crash_found-IsTidy :
    (name : Text) (a : Agent) (o : Option Process) → IsTidy a → IsTidy (crash_found name a o)
unfolding crash_found
crash_found-IsTidy name a none t n h = t n h
crash_found-IsTidy name a (some p) t n h =
    ground (arith, t n, h, lookup-insert name n (record p { has_failed = true }) a.processes)

unfoldable pub is_give_up : Attempt → Bool
is_give_up gave_up = true
is_give_up _ = false

module _ {B : Type 0} (env : Env B) where
  -- `monitorProcesses` on the exit of a process: whether it gives up, and the agent after it.
  unfoldable pub on_exit : Text → Option Process → Agent → B → Bool × Agent × B
  unfolding is_give_up
  on_exit name none a b = (false, a, b)
  on_exit name (some p) a b =
      let (r, a₁, b₁) = attempt_restart env name p a b in (is_give_up r, a₁, b₁)

  unfoldable pub on_event : Event → Agent → B → Bool × Agent × B
  unfolding on_exit crash
  on_event (starts svc) a b = let (ok, a₁, b₁) = start_service env svc a b in (false, a₁, b₁)
  on_event (restarts svc) a b = let (ok, a₁, b₁) = restart_service env svc a b in (false, a₁, b₁)
  on_event (stops name) a b = let (ok, a₁, b₁) = stop_service env name a b in (false, a₁, b₁)
  on_event (crashes name) a b = (false, crash name a, b)
  on_event (exits name) a b = on_exit name (lookup_failed env name a) a b

  -- A history of events: whether a restart gave up, and the agent after it.
  unfoldable pub on_events : List Event → Agent → B → Bool × Agent × B
  unfolding on_event
  on_events [] a b = (false, a, b)
  on_events (e ∷ es) a b =
      let (g, a₁, b₁) = on_event e a b in let (h, a₂, b₂) = on_events es a₁ b₁ in (g || h, a₂, b₂)

  spawned-IsTidy :
      (svc : ServiceDefinition) (a : Agent) (r : Option ℕ × B)
      → IsTidy a
      → IsTidy (spawned env svc a r).1
  unfolding spawned
  spawned-IsTidy svc a (none, b) t = t
  spawned-IsTidy svc a (some pid, b) t = enter_process-IsTidy (env.is_probed svc) svc pid a t

  start_found-IsTidy :
      (svc : ServiceDefinition) (a : Agent) (o : Option Process) (b : B)
      → IsTidy a
      → IsTidy (start_found env svc a o b).1
  unfolding start_found
  start_found-IsTidy svc a none b t = spawned-IsTidy svc a (env.spawn svc b) t
  start_found-IsTidy svc a (some p) b t = t

  halt_found-IsTidy :
      (name : Text) (a : Agent) (o : Option Process) (b : B)
      → IsTidy a
      → IsTidy (halt_found env name a o b).0
  unfolding halt_found
  halt_found-IsTidy name a none b t = t
  halt_found-IsTidy name a (some p) b t = forget_process-IsTidy name p a t

  stop_found-IsTidy :
      (name : Text) (a : Agent) (o : Option Process) (b : B)
      → IsTidy a
      → IsTidy (stop_found env name a o b).1
  unfolding stop_found stop_process
  stop_found-IsTidy name a none b t = t
  stop_found-IsTidy name a (some p) b t = halt_found-IsTidy name a (lookup name a.processes) _ t

  restarted-IsTidy :
      (svc : ServiceDefinition) (r : Bool × Agent × B) → IsTidy r.1 → IsTidy (restarted env svc r).1
  unfolding restarted
  restarted-IsTidy svc (true, a, b) t = t
  restarted-IsTidy svc (false, a, b) t = t

  after_mark-IsTidy :
      (svc : ServiceDefinition) (a : Agent) (r : Option KvError × Bool × B)
      → IsTidy a
      → IsTidy (after_mark env svc a r).1
  unfolding after_mark stop_process start_service
  after_mark-IsTidy svc a (some e, c, b) t = t
  after_mark-IsTidy svc a (none, c, b) t =
      let s = halt_found-IsTidy svc.name a (lookup svc.name a.processes) b t in
      restarted-IsTidy svc _ (start_found-IsTidy svc _ _ _ s)

  after_requeue-IsTidy :
      (a : Agent) (r : Option KvError × Bool × B) → IsTidy a → IsTidy (after_requeue env a r).1
  unfolding after_requeue
  after_requeue-IsTidy a (none, c, b) t = t
  after_requeue-IsTidy a (some e, c, b) t = t

  after_pause-IsTidy :
      (name : Text) (a : Agent) (r : Bool × B) → IsTidy a → IsTidy (after_pause env name a r).1
  unfolding after_pause
  after_pause-IsTidy name a (false, b) t = t
  after_pause-IsTidy name a (true, b) t = after_requeue-IsTidy a _ t

  after_failure-IsTidy :
      (name : Text) (p : Process) (a : Agent) (r : Option KvError × Bool × B)
      → IsTidy a
      → is_give_up (after_failure env name p a r).0 ≡ false
      → IsTidy (after_failure env name p a r).1
  unfolding after_failure is_give_up
  after_failure-IsTidy name p a (some e, g, b) t h = t
  after_failure-IsTidy name p a (none, true, b) t h = absurd (ground (arith, h))
  after_failure-IsTidy name p a (none, false, b) t h =
      after_pause-IsTidy name (forget_process name p a) (env.pause p.svc (env.kill p.pid b))
        (forget_process-IsTidy name p a t)

  on_exit-IsTidy :
      (name : Text) (o : Option Process) (a : Agent) (b : B)
      → IsTidy a
      → (on_exit name o a b).0 ≡ false
      → IsTidy (on_exit name o a b).1
  unfolding on_exit attempt_restart
  on_exit-IsTidy name none a b t h = t
  on_exit-IsTidy name (some p) a b t h = after_failure-IsTidy name p a _ t h

  on_event-IsTidy :
      (e : Event) (a : Agent) (b : B)
      → IsTidy a
      → (on_event e a b).0 ≡ false
      → IsTidy (on_event e a b).1
  unfolding on_event start_service stop_service restart_service crash
  on_event-IsTidy (starts svc) a b t h = start_found-IsTidy svc a (lookup svc.name a.processes) b t
  on_event-IsTidy (restarts svc) a b t h = after_mark-IsTidy svc a _ t
  on_event-IsTidy (stops name) a b t h = stop_found-IsTidy name a (lookup name a.processes) b t
  on_event-IsTidy (crashes name) a b t h = crash_found-IsTidy name a (lookup name a.processes) t
  on_event-IsTidy (exits name) a b t h = on_exit-IsTidy name (lookup_failed env name a) a b t h

  -- In every history of a tidy agent, of commands, crashes and restarts after them, in which no restart
  -- gives up, each service with a probe has a process.
  pub on_events-IsTidy :
      (es : List Event) (a : Agent) (b : B)
      → IsTidy a
      → (on_events es a b).0 ≡ false
      → IsTidy (on_events es a b).1
  unfolding on_events
  on_events-IsTidy [] a b t h = t
  on_events-IsTidy (e ∷ es) a b t h =
      let (g, a₁, b₁) = on_event e a b in
      on_events-IsTidy es a₁ b₁ (on_event-IsTidy e a b t (ground (arith, h))) (ground (arith, h))
