-- ===== src/Metrics/Store.antt =====
-- asty/internal/ops/autoscaler/metrics/store.go and service_rps.go. A sample has any type of values
-- with a zero. Times of calls are nanoseconds; a time before 1970 counts as 1970.
use asty.Common.{
  ℕ, zero, suc, ◌-◌, ◌/◌, leb, ltb, Bool, true, Option, none, some, List, [], ◌∷◌, ◌++◌, reverse,
  Text, codes, same, if◌then◌else◌, keep, value_or,
}
use mathlib.Core.Option
use asty.Common.Int.{ℤ, pos, pos_part, leb_ℤ}
use asty.Common.Map.{Map, lookup, insert}
use asty.Ringbuf.{Ring, new, push, snapshot}
use asty.Autoscaler.Execute.{ScalingEvent}

pub record MetricPoint (V : Type 0) : Type 0 where
  pub timestamp : ℕ
  pub value : V

-- `ScalingEvent`, with its timestamp.
pub record Stamped : Type 0 where
  pub timestamp : ℕ
  pub event : ScalingEvent

pub record MetricStore (V : Type 0) : Type 0 where
  pub rps : Map (List (MetricPoint V))
  pub service_rps : Map (MetricPoint V)
  pub max_age : ℕ
  pub events : Ring Stamped

-- `time.Time.Unix`.
unfoldable pub unix : ℕ → ℕ
unix t = t / 1000000000

abbrev pub freshness : ℕ
freshness = 30000000000

abbrev pub events_capacity : ℤ
events_capacity = pos 1000

unfoldable pub rps_key : Text → Text
rps_key node = codes "node." ++ node ++ codes ".rps"

unfoldable pub service_rps_key : Text → Text → Text
service_rps_key node service = codes "node." ++ node ++ codes ".svc." ++ service

-- The event of a call that leaves the timestamp at 0 gets the time of the call.
unfoldable pub stamp : ℕ → Stamped → Stamped
stamp now e = elim e.timestamp [ zero ↦ record e { timestamp = unix now } | suc t ↦ e ]

unfoldable pub is_of : Text → Stamped → Bool
is_of [] e = true
is_of (c ∷ service) e = same e.event.service (c ∷ service)

-- The loop of `GetEvents` over the snapshot from its end, with so much room left.
unfoldable pub filtered : Text → ℕ → List Stamped → List Stamped
unfolding is_of
filtered service n [] = []
filtered service zero (e ∷ es) = []
filtered service (suc n) (e ∷ es) =
    let kept = filtered service n es in
    let rest = filtered service (suc n) es in if is_of service e then e ∷ kept else rest

unfoldable pub limit_of : ℤ → ℕ
limit_of limit = if leb_ℤ limit (pos 0) then 100 else pos_part limit

module _ {V : Type 0} where
  -- `NewStore`; `z` fills the ring.
  unfoldable pub new_store : Stamped → ℕ → Option (MetricStore V)
  new_store z age =
      Option.map (λ r. record { rps = []; service_rps = []; max_age = age; events = r })
        (new z events_capacity)

  -- `points[keepFrom:]` where some point is fresh.
  unfoldable pub fresh_from : ℕ → List (MetricPoint V) → Option (List (MetricPoint V))
  fresh_from cutoff [] = none
  fresh_from cutoff (p ∷ ps) =
      let rest = fresh_from cutoff ps in if leb cutoff p.timestamp then some (p ∷ ps) else rest

  -- `cleanOld`; where no point is fresh, `keepFrom` stays 0 and all are kept.
  unfoldable pub clean_old : ℕ → List (MetricPoint V) → List (MetricPoint V)
  unfolding fresh_from
  clean_old cutoff ps = value_or ps (fresh_from cutoff ps)

  unfoldable pub points_of : Text → MetricStore V → List (MetricPoint V)
  unfolding rps_key
  points_of node s = value_or [] (lookup (rps_key node) s.rps)

  -- `AddRPS`.
  unfoldable pub add_rps : Text → V → ℕ → MetricStore V → MetricStore V
  unfolding clean_old points_of unix
  add_rps node v now s = record s {
    rps =
        insert (rps_key node)
          (clean_old (unix (now - s.max_age))
            (points_of node s ++ record { timestamp = unix now; value = v } ∷ []))
          s.rps;
  }

  -- `GetRPS`.
  unfoldable pub get_rps : Text → ℕ → MetricStore V → List (MetricPoint V)
  unfolding points_of
  get_rps node since s =
      keep (λ (p : MetricPoint V). leb (unix since) p.timestamp) (points_of node s)

  -- The loop of `GetLatestRPS`, which goes from the end.
  unfoldable pub latest_in : ℕ → List (MetricPoint V) → Option V
  latest_in cutoff [] = none
  latest_in cutoff (p ∷ ps) = elim (latest_in cutoff ps) [
    | none ↦ if leb cutoff p.timestamp then some p.value else none
    | some v ↦ some v
  ]

  -- `GetLatestRPS`; `z` is the zero of the values.
  unfoldable pub get_latest_rps : V → Text → ℕ → MetricStore V → V
  unfolding latest_in points_of
  get_latest_rps z node now s = value_or z (latest_in (unix (now - freshness)) (points_of node s))

  -- `AddServiceRPS`.
  unfoldable pub add_service_rps : Text → Text → V → ℕ → MetricStore V → MetricStore V
  unfolding service_rps_key
  add_service_rps node service v now s = record s {
    service_rps =
        insert (service_rps_key node service) (record { timestamp = unix now; value = v })
          s.service_rps;
  }

  -- `GetLatestServiceRPS`.
  unfoldable pub get_latest_service_rps : V → Text → Text → ℕ → MetricStore V → V
  unfolding service_rps_key
  get_latest_service_rps z node service now s =
      elim (lookup (service_rps_key node service) s.service_rps) [
        | none ↦ z
        | some p ↦ if ltb p.timestamp (unix (now - freshness)) then z else p.value
      ]

  -- `AddEvent`.
  unfoldable pub add_event : ℕ → Stamped → MetricStore V → MetricStore V
  unfolding stamp
  add_event now e s = record s { events = push s.events (stamp now e) }

  -- `GetEvents`; `none` is a snapshot that panics.
  unfoldable pub get_events : Text → ℤ → MetricStore V → Option (List Stamped)
  unfolding filtered limit_of
  get_events service limit s =
      Option.map (λ snap. filtered service (limit_of limit) (reverse snap)) (snapshot s.events)
