-- ===== src/Deployer/Tracker.antt =====
-- asty/internal/ops/deployer/tracker.go and wait.go: the wait until a batch has been healthy for long
-- enough. What wakes the wait is a list, from which the deadline or a cancel cuts the rest: an update
-- of a copy or a timer, each with its time.
use asty.Common.{
  ℕ, ◌+◌, ◌-◌, leb, Bool, true, false, ◌&&◌, List, [], ◌∷◌, ◌++◌, Option, none, some, Text, codes,
  if◌then◌else◌,
}
use asty.Common.Int.{pos, sub_ℕ, leb_ℤ}
use asty.Common.Map.{Map, insert, lookup}
use asty.Types.Allocation.{AllocationStatus, ServiceAllocation, is_status, running, unset}
use asty.Kv.Store.{Store}
use asty.Kv.Allocations.{get_allocation}

pub record HealthTracker : Type 0 where
  pub statuses : Map AllocationStatus
  pub healthy_at : Option ℕ
  pub min_healthy_time : ℕ

-- `allocKey`.
unfoldable pub copy_key : ServiceAllocation → Text
copy_key a = a.service_name ++ codes "/" ++ a.node_id

-- `batchKeys` and `newHealthTracker`.
unfoldable pub unset_all : Map AllocationStatus → List ServiceAllocation → Map AllocationStatus
unset_all m [] = m
unset_all m (a ∷ as') = unset_all (insert (copy_key a) unset m) as'

unfoldable pub new_health_tracker : List ServiceAllocation → ℕ → HealthTracker
unfolding unset_all copy_key
new_health_tracker batch min = record {
  statuses = unset_all [] batch;
  healthy_at = none;
  min_healthy_time = min;
}

unfoldable pub all_running : Map AllocationStatus → Bool
all_running [] = true
all_running ((k, st) ∷ m) = is_status st running && all_running m

unfoldable pub update : Text → AllocationStatus → ℕ → HealthTracker → HealthTracker
unfolding all_running
update key st now t =
    let statuses = insert key st t.statuses in
    record t {
      statuses = statuses;
      healthy_at =
          if all_running statuses
          then elim t.healthy_at [ none ↦ some now | some at ↦ some at ]
          else none;
    }

unfoldable pub mark_healthy_now : ℕ → HealthTracker → HealthTracker
unfolding all_running
mark_healthy_now now t = record t {
  healthy_at = elim t.healthy_at [
    | none ↦ if all_running t.statuses then some now else none
    | some at ↦ some at
  ];
}

unfoldable pub satisfied : ℕ → HealthTracker → Bool
satisfied now t = elim t.healthy_at [
  | none ↦ false
  | some at ↦ leb_ℤ (pos t.min_healthy_time) (sub_ℕ now at)
]

-- `until`: 0 is to wait for the next update, and past the limit it is one millisecond.
unfoldable pub until : ℕ → HealthTracker → ℕ
until now t = elim t.healthy_at [
  | none ↦ 0
  | some at ↦ if leb (at + t.min_healthy_time) now then 1000000 else at + t.min_healthy_time - now
]

pub data Wake : Type 0 where
  changed : Text → AllocationStatus → ℕ → Wake
  timer : ℕ → Wake

-- The watch passes over the copies that are not in the batch.
unfoldable pub track : HealthTracker → Wake → HealthTracker
unfolding update
track t (changed key st now) = elim (lookup key t.statuses) [
  | none ↦ t
  | some old ↦ update key st now t
]
track t (timer now) = t

-- The loop of `waitBatchEventDriven`.
unfoldable pub wait_loop : HealthTracker → List Wake → Bool
wait_loop t [] = false
wait_loop t (changed key st now ∷ ws) = wait_loop (track t (changed key st now)) ws
wait_loop t (timer now ∷ ws) = let rest = wait_loop t ws in if satisfied now t then true else rest

module _ {B : Type 0} (s : Store B) where
  -- The statuses read before the watch starts.
  unfoldable pub seed : List ServiceAllocation → HealthTracker → B → HealthTracker × B
  unfolding update copy_key
  seed [] t b = (t, b)
  seed (a ∷ as') t b =
      let (cur, b₁) = get_allocation s a.service_name a.node_id b in
      let (now, b₂) = s.now b₁ in
      elim cur [ none ↦ seed as' t b₁ | some c ↦ seed as' (update (copy_key a) c.status now t) b₂ ]

  -- `waitForBatchHealth`; `watch` is what wakes the wait on a batch.
  unfoldable pub wait_for_batch_health :
      (List ServiceAllocation → B → List Wake × B) → ℕ → List ServiceAllocation → B → Bool × B
  unfolding seed mark_healthy_now wait_loop
  wait_for_batch_health watch min batch b =
      let (t, b₁) = seed batch (new_health_tracker batch min) b in
      let (now, b₂) = s.now b₁ in
      let (wakes, b₃) = watch batch b₂ in (wait_loop (mark_healthy_now now t) wakes, b₃)
