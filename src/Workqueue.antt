-- ===== src/Workqueue.antt =====
-- asty/internal/ops/reconciler/workqueue.go: the work queue of the reconciler. The mutex makes each
-- method one step; `Get`, which waits on a condition variable, says that it blocks. Times are
-- numbers (nanoseconds), given to each call that reads the clock. Durations do not wrap: they stay
-- below twice `max_delay`.
pub mod Delivery
pub mod Backoff
pub mod Duplicates
pub mod Tracking
pub mod Timers
use asty.Common.{
  ℕ, zero, suc, ◌+◌, ◌*◌, Bool, true, false, List, [], ◌∷◌, ◌++◌, Text, ltb, leb, ◌==◌,
  if◌then◌else◌, length,
}
use asty.Common.Map.{Map, lookup, insert, erase, count_of, has, put, del}
use asty.Common.Sort.{place}

-- `delayedItem`.
pub record Item : Type 0 where
  pub key : Text
  pub ready : ℕ

pub record Workqueue : Type 0 where
  pub queue : List Text
  pub dirty : List Text
  pub processing : List Text
  pub delayed : List Item  -- the heap, in the order in which it is popped
  pub failures : Map ℕ
  pub base_delay : ℕ
  pub max_delay : ℕ
  pub closed : Bool

-- `NewWorkqueue`: 500 ms and 60 s.
unfoldable pub new_workqueue : Workqueue
new_workqueue = record {
  queue = [];
  dirty = [];
  processing = [];
  delayed = [];
  failures = [];
  base_delay = 500000000;
  max_delay = 60000000000;
  closed = false;
}

-- `addLocked`, which is also `Add`.
unfoldable pub add_locked : Workqueue → Text → Workqueue
add_locked q key =
    if q.closed
    then q
    else if has key q.dirty
    then q
    else if has key q.processing
    then record q { dirty = put key q.dirty }
    else record q { dirty = put key q.dirty; queue = q.queue ++ key ∷ [] }

-- What `Get` comes to: it waits, it returns `("", false)`, or it returns a key.
pub data Got : Type 0 where
  blocks : Got
  stopped : Got
  got : Text → Workqueue → Got

get_from : List Text → Workqueue → Got
get_from [] q = if q.closed then stopped else blocks
get_from (key ∷ rest) q =
    got key (record q { queue = rest; dirty = del key q.dirty; processing = put key q.processing })

unfoldable pub get : Workqueue → Got
unfolding get_from
get q = get_from q.queue q

unfoldable pub done : Workqueue → Text → Workqueue
done q key =
    let q' = record q { processing = del key q.processing } in
    if has key q.dirty
    then record q' { dirty = del key q.dirty; queue = q.queue ++ key ∷ [] }
    else q'

-- `heap.Push`: the heap is popped by `ready`.
abbrev pub sooner : Item → Item → Bool
sooner a b = ltb a.ready b.ready

unfoldable pub add_after : Workqueue → Text → ℕ → ℕ → Workqueue
unfolding add_locked place
add_after q key delay now =
    if delay == 0
    then add_locked q key
    else if q.closed
    then q
    else record q { delayed = place sooner (record { key = key; ready = now + delay }) q.delayed }

-- The loop of `rateLimitedDelay`: `n` rounds are left.
unfoldable pub doubled : ℕ → ℕ → ℕ → ℕ
doubled zero delay max_delay = delay
doubled (suc n) delay max_delay =
    let rest = doubled n (delay * 2) max_delay in if ltb delay max_delay then rest else delay

unfoldable pub rate_limited_delay : ℕ → ℕ → ℕ → ℕ
unfolding doubled
rate_limited_delay n base max_delay =
    let delay = doubled n base max_delay in if ltb max_delay delay then max_delay else delay

unfoldable pub add_rate_limited : Workqueue → Text → ℕ → Workqueue
unfolding count_of add_after rate_limited_delay
add_rate_limited q key now =
    let n = count_of key q.failures in
    add_after (record q { failures = insert key (n + 1) q.failures }) key
      (rate_limited_delay n q.base_delay q.max_delay) now

unfoldable pub forget : Workqueue → Text → Workqueue
forget q key = record q { failures = erase key q.failures }

unfoldable pub shut_down : Workqueue → Workqueue
shut_down q = record q { closed = true }

unfoldable pub len : Workqueue → ℕ
len q = length q.dirty + length q.processing

-- The inner loop of `delayedLoop`: every item that is due is popped and added.
release_from : List Item → Workqueue → ℕ → Workqueue
release_from [] q now = record q { delayed = [] }
release_from (it ∷ rest) q now =
    let next = release_from rest (add_locked q it.key) now in
    if leb it.ready now then next else record q { delayed = it ∷ rest }

unfoldable pub release_due : Workqueue → ℕ → Workqueue
unfolding release_from add_locked
release_due q now = release_from q.delayed q now
