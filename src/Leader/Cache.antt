-- ===== src/Leader/Cache.antt =====
-- asty/internal/ops/leader/election.go and watch.go: the cache of the leader's identity, fed by a
-- watch on the key, and the wake-up of the campaign.
use asty.Common.{Bool, true, false, Option, none, some, [], ◌∷◌, Text, if◌then◌else◌}

pub record Info : Type 0 where
  pub id : Text
  pub ip : Text
  pub host : Text

abbrev pub no_info : Info
no_info = record { id = []; ip = []; host = [] }

-- The fields `cached`, `cacheValid`, and whether the wake-up channel is full.
pub record InfoCache : Type 0 where
  pub cached : Info
  pub valid : Bool
  pub woken : Bool

abbrev pub new_cache : InfoCache
new_cache = record { cached = no_info; valid = false; woken = false }

-- An event of the watch. A value that does not parse leaves the zero value, as `_ = Unmarshal` does.
pub data WatchEvent : Type 0 where
  replayed : WatchEvent  -- `entry == nil`, the end of the history
  removed : WatchEvent  -- a delete or a purge
  stored : Option Info → WatchEvent

unfoldable pub set_cached_leader : Info → InfoCache → InfoCache
set_cached_leader info c = record c { cached = info; valid = true }

unfoldable pub prime_cache_if_empty : InfoCache → InfoCache
prime_cache_if_empty c = if c.valid then c else record c { cached = no_info; valid = true }

unfoldable pub notify_wake : InfoCache → InfoCache
notify_wake c = record c { woken = true }

-- A turn of the loop of `runCacheOnce`.
unfoldable pub on_event : WatchEvent → InfoCache → InfoCache
unfolding set_cached_leader prime_cache_if_empty notify_wake
on_event replayed c = prime_cache_if_empty c
on_event removed c = set_cached_leader no_info (notify_wake c)
on_event (stored none) c = set_cached_leader no_info c
on_event (stored (some info)) c = set_cached_leader info c

-- What `GetLeader` comes to; the last is the read of the bucket that it falls back to.
pub data LeaderAnswer : Type 0 where
  no_leader : LeaderAnswer
  led_by : Info → LeaderAnswer
  ask_bucket : LeaderAnswer

unfoldable pub named : Info → LeaderAnswer
named i = elim i.id [ [] ↦ no_leader | c ∷ t ↦ led_by i ]

unfoldable pub get_leader : InfoCache → LeaderAnswer
unfolding named
get_leader c = if c.valid then named c.cached else ask_bucket
