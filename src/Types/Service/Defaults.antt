-- ===== src/Types/Service/Defaults.antt =====
-- `Resolve` caches what the accessors compute, and keeps the rolling update from a zero stride.
use asty.Common.{ℕ, ◌+◌, ◌≡◌, ◌≢◌, Option, Text, [], ◌∷◌, arith}
use asty.Common.Int.{ℤ, pos, ◌≤ℤ◌}
use asty.Types.Service.{
  Update, ServiceDefinition, get_max_parallel, get_canary, resolve_update, parse_duration_or,
  get_kill_timeout, get_interval, get_timeout, get_delay, resolve,
}

-- A duration with a positive fallback is not 0.
parse_duration_or_nonzero :
    (parse : Text → Option ℤ) (t : Text) (k : ℕ) → parse_duration_or parse t (pos (k + 1)) ≢ pos 0
unfolding parse_duration_or
parse_duration_or_nonzero parse [] k = λ e. ground arith
parse_duration_or_nonzero parse (c ∷ t) k = λ e. ground arith

-- For a definition that was just read, with cached durations of 0, the accessors agree before and
-- after `Resolve`, and the kill timeout is not 0.
pub resolve_accessors :
    (parse : Text → Option ℤ) (s : ServiceDefinition)
    → s.parsed_kill_timeout ≡ pos 0
    → s.health.parsed_interval ≡ pos 0
    → s.health.parsed_timeout ≡ pos 0
    → s.restart.parsed_delay ≡ pos 0
    → (get_kill_timeout parse (resolve parse s) ≡ get_kill_timeout parse s)
      × (get_interval parse (resolve parse s).health ≡ get_interval parse s.health)
      × (get_timeout parse (resolve parse s).health ≡ get_timeout parse s.health)
      × (get_delay parse (resolve parse s).restart ≡ get_delay parse s.restart)
      × (get_kill_timeout parse s ≢ pos 0)
unfolding resolve get_kill_timeout get_interval get_timeout get_delay
resolve_accessors parse s a b c d = ground (
  arith,
  parse_duration_or_nonzero parse s.kill_timeout 29999999999,
  parse_duration_or_nonzero parse s.health.interval 9999999999,
  parse_duration_or_nonzero parse s.health.timeout 2999999999,
  parse_duration_or_nonzero parse s.restart.delay 4999999999,
)

-- A resolved definition has a stride of at least 1 for the rolling update, and `Resolve` changes
-- nothing the second time.
pub resolve_update_lem :
    (u : Update)
    → (pos 1 ≤ℤ (resolve_update u).max_parallel)
      × (get_max_parallel (resolve_update u) ≡ get_max_parallel u)
      × (resolve_update (resolve_update u) ≡ resolve_update u)
unfolding resolve_update get_max_parallel
resolve_update_lem u = ground arith

-- `Resolve` leaves a canary count of 0 as it is, where the accessor says 1.
pub resolve_update-canary :
    (u : Update)
    → u.canary ≡ pos 0
    → ((resolve_update u).canary ≡ pos 0) × (get_canary (resolve_update u) ≡ pos 1)
unfolding resolve_update get_canary
resolve_update-canary u h = ground arith
