-- ===== src/Types/Service.antt =====
-- asty/internal/core/types/service.go and service_accessors.go: the definition of a service and the
-- defaults of its fields. `time.ParseDuration` is the argument `parse`; an error is `none`.
pub mod Defaults
use asty.Common.{ℕ, Bool, true, false, Option, none, some, Text, [], ◌∷◌, if◌then◌else◌}
use asty.Common.Int.{ℤ, pos, negsuc, leb_ℤ, ltb_ℤ, eqb_ℤ}

pub data ServiceType : Type 0 where
  system service : ServiceType
  other : Text → ServiceType

pub record Resources : Type 0 where
  pub cpu : ℤ  -- MHz
  pub memory : ℤ  -- MB

pub record Health : Type 0 where
  pub interval : Text
  pub timeout : Text
  pub parsed_interval : ℤ
  pub parsed_timeout : ℤ

pub record Update : Type 0 where
  pub max_parallel : ℤ
  pub canary : ℤ
  pub canary_retries : ℤ
  pub auto_revert : Bool

pub record Restart : Type 0 where
  pub attempts : ℤ
  pub delay : Text
  pub parsed_delay : ℤ

pub record ServiceDefinition : Type 0 where
  pub name : Text
  pub type : ServiceType
  pub kill_timeout : Text
  pub resources : Resources
  pub health : Health
  pub update : Update
  pub restart : Restart
  pub parsed_kill_timeout : ℤ

abbrev pub default_kill_timeout : ℤ
default_kill_timeout = pos 30000000000

abbrev pub default_health_interval : ℤ
default_health_interval = pos 10000000000

abbrev pub default_health_timeout : ℤ
default_health_timeout = pos 3000000000

abbrev pub default_restart_delay : ℤ
default_restart_delay = pos 5000000000

-- `GetMaxParallel`, `GetCanary` and `GetAttempts`.
unfoldable pub get_max_parallel : Update → ℤ
get_max_parallel u = if ltb_ℤ (pos 0) u.max_parallel then u.max_parallel else pos 1

unfoldable pub get_canary : Update → ℤ
get_canary u = if ltb_ℤ (pos 0) u.canary then u.canary else pos 1

unfoldable pub get_attempts : Restart → ℤ
get_attempts r = if leb_ℤ r.attempts (pos 0) then pos 3 else r.attempts

-- The update settings after `Resolve`.
unfoldable pub resolve_update : Update → Update
resolve_update u = record u {
  max_parallel = if leb_ℤ u.max_parallel (pos 0) then pos 1 else u.max_parallel;
  canary = if ltb_ℤ u.canary (pos 0) then pos 0 else u.canary;
  canary_retries = if ltb_ℤ u.canary_retries (pos 0) then pos 0 else u.canary_retries;
}

parsed_or : Option ℤ → ℤ → ℤ
parsed_or none fallback = fallback
parsed_or (some d) fallback = if eqb_ℤ d (pos 0) then fallback else d

module _ (parse : Text → Option ℤ) where
  unfoldable pub parse_duration_or : Text → ℤ → ℤ
  unfolding parsed_or
  parse_duration_or [] fallback = fallback
  parse_duration_or (c ∷ s) fallback = parsed_or (parse (c ∷ s)) fallback

  unfoldable pub get_kill_timeout : ServiceDefinition → ℤ
  get_kill_timeout s =
      if eqb_ℤ s.parsed_kill_timeout (pos 0)
      then parse_duration_or s.kill_timeout default_kill_timeout
      else s.parsed_kill_timeout

  unfoldable pub get_interval : Health → ℤ
  get_interval h =
      if eqb_ℤ h.parsed_interval (pos 0)
      then parse_duration_or h.interval default_health_interval
      else h.parsed_interval

  unfoldable pub get_timeout : Health → ℤ
  get_timeout h =
      if eqb_ℤ h.parsed_timeout (pos 0)
      then parse_duration_or h.timeout default_health_timeout
      else h.parsed_timeout

  unfoldable pub get_delay : Restart → ℤ
  get_delay r =
      if eqb_ℤ r.parsed_delay (pos 0)
      then parse_duration_or r.delay default_restart_delay
      else r.parsed_delay

  unfoldable pub resolve : ServiceDefinition → ServiceDefinition
  unfolding resolve_update
  resolve s = record s {
    parsed_kill_timeout = parse_duration_or s.kill_timeout default_kill_timeout;
    health = record (s.health) {
      parsed_interval = parse_duration_or s.health.interval default_health_interval;
      parsed_timeout = parse_duration_or s.health.timeout default_health_timeout;
    };
    restart = record (s.restart) {
      parsed_delay = parse_duration_or s.restart.delay default_restart_delay;
    };
    update = resolve_update s.update;
  }
