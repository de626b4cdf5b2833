-- ===== src/Workqueue/Timers.antt =====
-- The delayed keys: every due key is released, and no key before its time.
use asty.Common.{
  ℕ, ◌+◌, ◌<◌, ◌≡◌, refl, ◌∙◌, Bool, false, ◌||◌, ◌&&◌, List, [], ◌∷◌, Text, arith, Bool-cases, leb,
  All, same_iff, inl, inr,
}
use asty.Common.Map.{has, has-put}
use asty.Common.Sort.{Sorted, IsLess, Sorted-place}
use asty.Workqueue.{Workqueue, Item, sooner, add_locked, add_after, release_from, release_due}

sooner-IsLess : IsLess sooner
sooner-IsLess = record { asym = λ x y h. ground arith; below = λ x y z h k. ground arith }

-- The heap is in order of `ready`; a delayed add keeps it so.
add_after-Sorted :
    (q : Workqueue) (key : Text) (delay now : ℕ)
    → Sorted sooner q.delayed
    → Sorted sooner (add_after q key delay now).delayed
unfolding add_after add_locked
add_after-Sorted q key delay now s = ground (
  arith,
  Sorted-place sooner sooner-IsLess (record { key = key; ready = now + delay }) q.delayed s,
)

add_locked-closed : (q : Workqueue) (k : Text) → (add_locked q k).closed ≡ q.closed
unfolding add_locked
add_locked-closed q k = ground arith

-- What is left in the heap is not yet due.
abbrev pub NotDue : ℕ → List Item → Type 0
NotDue now = All (λ it. now < it.ready)

later-All :
    (x : Item) (xs : List Item) (now : ℕ)
    → now < x.ready
    → All (λ y. sooner y x ≡ false) xs
    → NotDue now xs
later-All x [] now h a = tt
later-All x (y ∷ xs) now h a = (ground (arith, a.0), later-All x xs now h a.1)

-- Which keys a release adds: those of the items that are due.
abbrev pub due : ℕ → List Item → Text → Bool
due now [] k = false
due now (it ∷ xs) k = (leb it.ready now && has k (it.key ∷ [])) || due now xs k

release_from-NotDue :
    (xs : List Item) (q : Workqueue) (now : ℕ)
    → Sorted sooner xs
    → NotDue now (release_from xs q now).delayed
unfolding release_from
release_from-NotDue [] q now s = tt
release_from-NotDue (it ∷ xs) q now s = elim (Bool-cases (leb it.ready now)) [
  | inl h ↦ rw h (release_from-NotDue xs (add_locked q it.key) now s.1)
  | inr h ↦ rw h (ground arith, later-All it xs now (ground arith) s.0)
]

add_locked-dirty :
    (q : Workqueue) (j k : Text)
    → q.closed ≡ false
    → has k (add_locked q j).dirty ≡ (has k (j ∷ []) || has k q.dirty)
unfolding add_locked has
add_locked-dirty q j k h = ground (arith, has-put j k q.dirty, same_iff j k)

not_due : (now : ℕ) (xs : List Item) (k : Text) → NotDue now xs → due now xs k ≡ false
not_due now [] k n = refl
not_due now (x ∷ xs) k n = ground (arith, n.0, not_due now xs k n.1)

release_from-dirty :
    (xs : List Item) (q : Workqueue) (now : ℕ) (k : Text)
    → Sorted sooner xs
    → q.closed ≡ false
    → has k (release_from xs q now).dirty ≡ (due now xs k || has k q.dirty)
unfolding release_from
release_from-dirty [] q now k s o = refl
release_from-dirty (it ∷ xs) q now k s o = elim (Bool-cases (leb it.ready now)) [
  | inl h ↦
      let rest =
        release_from-dirty xs (add_locked q it.key) now k s.1 (add_locked-closed q it.key ∙ o) in
      rw h (ground (arith, rest, add_locked-dirty q it.key k o))
  | inr h ↦ rw h (ground (arith, not_due now xs k (later-All it xs now (ground arith) s.0)))
]

-- A release at time `now` of an open queue whose heap is in order marks exactly the keys of the
-- due items besides those that were marked, and leaves no due item behind.
pub release_due_lem :
    (q : Workqueue) (now : ℕ) (k : Text)
    → Sorted sooner q.delayed
    → q.closed ≡ false
    → NotDue now (release_due q now).delayed
      × (has k (release_due q now).dirty ≡ (due now q.delayed k || has k q.dirty))
unfolding release_due
release_due_lem q now k s o =
    (release_from-NotDue q.delayed q now s, release_from-dirty q.delayed q now k s o)
