-- ===== src/Examples/Edges.antt =====
-- The network helpers, the routes of the gateway, the store of samples and the restarts of an agent.
use asty.Common.{
  ℕ, zero, suc, ◌+◌, ◌-◌, ◌≤◌, ◌≡◌, refl, Bool, true, false, ◌||◌, Option, none, some, List, [],
  ◌∷◌, ◌++◌, Text, codes, arith, any, keep, leb, take, drop, reverse, length, replicate,
}
use asty.Common.Int.{pos}
use asty.Types.Allocation.{ServiceAllocation, scale_up, running}
use asty.Types.Service.{Restart, get_attempts}
use asty.Netutil.Retry.{retry_schedule, retry_with_backoff, tries, retry_with_backoff-tries}
use asty.Gateway.Subjects.{IsForwarded, route-IsForwarded}
use asty.Agent.Restarts.{IsRestarted, crash_cycles, crash_cycles-IsRestarted}
use asty.Common.Map.{has, lookup}
use asty.Agent.Process.{Agent, new_agent}
use asty.Agent.Tidy.{IsTidy, Event, exits, starts, crashes, on_events, on_events-IsTidy}
use asty.Examples.Bucket.{Bucket, memory}
use asty.Examples.Cluster.{copy_on, api, bucket}

-- A server that answers from the third call on.
abbrev answer : ℕ → Option ℕ × ℕ
answer zero = (some 7, 0)
answer (suc n) = (none, n)

retry_with_backoff-tries_example :
    retry_with_backoff answer (λ d b. b) 2 ≡ some (tries answer (λ d b. b) retry_schedule 2)
retry_with_backoff-tries_example = retry_with_backoff-tries answer (λ d b. b) 2

route-IsForwarded_example : IsForwarded (codes "/user/get/") (codes "user") (codes "get" ∷ [])
unfolding asty.Gateway.Routing.route asty.Common.same
route-IsForwarded_example =
    route-IsForwarded false (codes "/user/get/") (codes "user") (codes "get" ∷ []) refl

abbrev twice : Restart
twice = record { attempts = pos 2; delay = []; parsed_delay = pos 0 }

crash_cycles-IsRestarted_example :
    (a' : ServiceAllocation) × (crash_cycles
        (get_attempts twice)
        (11 ∷ (12 ∷ (13 ∷ [])))
        (copy_on (codes "n1") running)
      ≡ some a')
    × IsRestarted 3 (copy_on (codes "n1") running) a'
crash_cycles-IsRestarted_example =
    crash_cycles-IsRestarted twice (11 ∷ (12 ∷ (13 ∷ []))) (copy_on (codes "n1") running)
      (record { runs = refl; unfailed = refl })

-- An agent whose services all have a probe, and a process that does not fail.
abbrev agent_env : asty.Agent.Process.Env Bucket
agent_env = record {
  store = memory;
  node = codes "n1";
  spawn = λ svc b. (some 21, b);
  halt = λ pid b. b;
  kill = λ pid b. b;
  is_probed = λ svc. true;
  pause = λ svc b. (true, b);
}

-- A service is started, crashes, is restarted after its delay and started again.
abbrev cycle : List Event
cycle = starts api ∷ crashes (codes "api") ∷ exits (codes "api") ∷ starts api ∷ []

new_agent-IsTidy : IsTidy new_agent
unfolding new_agent has lookup
new_agent-IsTidy n h = ground (arith, h)

on_events-IsTidy_example : IsTidy (on_events agent_env cycle new_agent bucket).1
unfolding on_events asty.Agent.Process.lookup_failed lookup asty.Common.same
    asty.Agent.Process.attempt_restart asty.Kv.Allocations.mutate_allocation get_attempts
    asty.Common.Map.insert asty.Types.Allocation.is_status asty.Agent.Process.start_service
    new_agent
on_events-IsTidy_example = on_events-IsTidy agent_env cycle new_agent bucket new_agent-IsTidy refl

-- The restart after the crash is carried out: the process is taken off.
taken_off :
    (on_events agent_env
      (starts api ∷ crashes (codes "api") ∷ exits (codes "api") ∷ [])
      new_agent
      bucket).1.processes
    ≡ []
unfolding on_events asty.Agent.Process.lookup_failed lookup asty.Common.same
    asty.Agent.Process.attempt_restart asty.Kv.Allocations.mutate_allocation get_attempts
    asty.Common.Map.insert asty.Types.Allocation.is_status asty.Agent.Process.start_service
    new_agent asty.Common.Map.erase
taken_off = refl
