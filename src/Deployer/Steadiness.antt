-- ===== src/Deployer/Steadiness.antt =====
-- A wait that ends well has seen every copy of the batch running for long enough, without a break.
use asty.Common.{ℕ, ◌≤◌, ◌+◌, ◌≡◌, true, List, ◌∷◌, none, some, Text, arith, ◌⊎◌}
use asty.Types.Allocation.{AllocationStatus}
use asty.Deployer.Tracker.{HealthTracker, Wake, changed, timer, all_running, update, track}

abbrev pub time_of : Wake → ℕ
time_of (changed key st now) = now
time_of (timer now) = now

-- All copies are running from here on until a timer fires, at least the minimal time after `since`.
pub data Steady (since : ℕ) : HealthTracker → List Wake → Type 0 where
  fires :
      {t : HealthTracker} {ws : List Wake} (at : ℕ)
      → all_running t.statuses ≡ true
      → since + t.min_healthy_time ≤ at
      → Steady since t (timer at ∷ ws)
  stays :
      {t : HealthTracker} {ws : List Wake} (w : Wake)
      → all_running t.statuses ≡ true
      → Steady since (track t w) ws
      → Steady since t (w ∷ ws)

-- Somewhere in what wakes the wait such a time begins: at the start, where the tracker has been
-- healthy since that time, or with an update at that time.
pub data Succeeds : HealthTracker → List Wake → Type 0 where
  from_start :
      {t : HealthTracker} {ws : List Wake} (since : ℕ)
      → t.healthy_at ≡ some since
      → Steady since t ws
      → Succeeds t ws
  begins :
      {t : HealthTracker} {ws : List Wake} (w : Wake)
      → Steady (time_of w) (track t w) ws
      → Succeeds t (w ∷ ws)
  later :
      {t : HealthTracker} {ws : List Wake} (w : Wake)
      → Succeeds (track t w) ws
      → Succeeds t (w ∷ ws)

-- The clock runs only while all copies are running.
abbrev pub IsHonest : HealthTracker → Type 0
IsHonest t = (t.healthy_at ≡ none) ⊎ (all_running t.statuses ≡ true)

pub update-IsHonest :
    (key : Text) (st : AllocationStatus) (now : ℕ) (t : HealthTracker)
    → IsHonest (update key st now t)
unfolding update
update-IsHonest key st now t = ground arith
