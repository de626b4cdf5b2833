-- ===== src/Kv/Rounds.antt =====
-- The compare-and-swap loop of `MutateAllocation`: what a call without an error has done.
use asty.Common.{ℕ, zero, suc, ◌≡◌, refl, Option, none, some, Text}
use asty.Types.Allocation.{ServiceAllocation}
use asty.Kv.Store.{
  Store, Fetch, missing, unreadable, entry, Write, written, conflict, refused, KvError, max_retries,
}
use asty.Kv.Allocations.{
  Change, alloc_key, on_write, on_changed, on_record, on_fetch, mutate_loop, mutate_allocation,
  write_back,
}

module _ {B : Type 0} (s : Store B) {C : Type 0} (key : Text) (change : Change C) where
  -- The last round of a call: it read a record, and the callback declined it, or its change was
  -- written under the revision that was read. `c` and `b` are the caller's variables and the state
  -- after it.
  pub data Settled (c : C) (b : B) : Type 0 where
    declined :
        (c₀ : C) (b₀ : B) (v : Text) (r : ℕ) (a : ServiceAllocation)
        → s.get key b₀ ≡ entry v r b
        → s.allocations.unmarshal v ≡ some a
        → change c₀ a ≡ (c, none)
        → Settled c b
    replaced :
        (c₀ : C) (b₀ b₁ : B) (v : Text) (r : ℕ) (a a' : ServiceAllocation)
        → s.get key b₀ ≡ entry v r b₁
        → s.allocations.unmarshal v ≡ some a
        → change c₀ a ≡ (c, some a')
        → write_back s key a' r b₁ ≡ some (written b)
        → Settled c b

  abbrev EndsSettled : Option KvError × C × B → Type 0
  EndsSettled r = r.0 ≡ none → Settled r.1 r.2

  on_write-Settled :
      (again : C → B → Option KvError × C × B)
      → ((c : C) (b : B) → EndsSettled (again c b))
      → (c c₀ : C) (b₀ b₁ : B) (v : Text) (r : ℕ) (a a' : ServiceAllocation) (w : Option (Write B))
      → s.get key b₀ ≡ entry v r b₁
      → s.allocations.unmarshal v ≡ some a
      → change c₀ a ≡ (c, some a')
      → write_back s key a' r b₁ ≡ w
      → EndsSettled (on_write s key change again c b₁ w)
  unfolding on_write
  on_write-Settled again ih c c₀ b₀ b₁ v r a a' none e f g k h = cc
  on_write-Settled again ih c c₀ b₀ b₁ v r a a' (some (written b)) e f g k h =
      replaced c₀ b₀ b₁ v r a a' e f g k
  on_write-Settled again ih c c₀ b₀ b₁ v r a a' (some (conflict b)) e f g k h = ih c b h
  on_write-Settled again ih c c₀ b₀ b₁ v r a a' (some (refused b)) e f g k h = cc

  on_changed-Settled :
      (again : C → B → Option KvError × C × B)
      → ((c : C) (b : B) → EndsSettled (again c b))
      → (c₀ : C) (b₀ b₁ : B) (v : Text) (r : ℕ) (a : ServiceAllocation)
      → (x : C × Option ServiceAllocation) → s.get key b₀ ≡ entry v r b₁
      → s.allocations.unmarshal v ≡ some a
      → change c₀ a ≡ x
      → EndsSettled (on_changed s key change again r b₁ x)
  unfolding on_changed
  on_changed-Settled again ih c₀ b₀ b₁ v r a (c, none) e f g h = declined c₀ b₀ v r a e f g
  on_changed-Settled again ih c₀ b₀ b₁ v r a (c, some a') e f g h =
      on_write-Settled again ih c c₀ b₀ b₁ v r a a' (write_back s key a' r b₁) e f g refl h

  on_record-Settled :
      (again : C → B → Option KvError × C × B)
      → ((c : C) (b : B) → EndsSettled (again c b))
      → (c : C) (b₀ b₁ : B) (v : Text) (r : ℕ) (o : Option ServiceAllocation)
      → s.get key b₀ ≡ entry v r b₁
      → s.allocations.unmarshal v ≡ o
      → EndsSettled (on_record s key change again c r b₁ o)
  unfolding on_record
  on_record-Settled again ih c b₀ b₁ v r none e f h = cc
  on_record-Settled again ih c b₀ b₁ v r (some a) e f h =
      on_changed-Settled again ih c b₀ b₁ v r a (change c a) e f refl h

  on_fetch-Settled :
      (again : C → B → Option KvError × C × B)
      → ((c : C) (b : B) → EndsSettled (again c b))
      → (c : C) (b₀ : B) (f : Fetch B) → s.get key b₀ ≡ f
      → EndsSettled (on_fetch s key change again c f)
  unfolding on_fetch
  on_fetch-Settled again ih c b₀ (missing b) e h = cc
  on_fetch-Settled again ih c b₀ (unreadable b) e h = cc
  on_fetch-Settled again ih c b₀ (entry v r b) e h =
      on_record-Settled again ih c b₀ b v r (s.allocations.unmarshal v) e refl h

  mutate_loop-Settled : (n : ℕ) (c : C) (b : B) → EndsSettled (mutate_loop s key change n c b)
  unfolding mutate_loop
  mutate_loop-Settled zero c b h = cc
  mutate_loop-Settled (suc n) c b h =
      on_fetch-Settled (mutate_loop s key change n) (λ c' b'. mutate_loop-Settled n c' b') c b
        (s.get key b) refl h

-- A call of `MutateAllocation` that returns no error ends in such a round, whatever other writers
-- did in between: nothing is written but the callback's change of the record that was read, under
-- that record's revision.
pub mutate_allocation-Settled :
    {B C : Type 0} (s : Store B) (service node : Text) (change : Change C) (c : C) (b : B)
    → (mutate_allocation s service node change c b).0 ≡ none
    → let r = mutate_allocation s service node change c b in
      Settled s (alloc_key service node) change r.1 r.2
unfolding mutate_allocation
mutate_allocation-Settled s service node change c b h =
    mutate_loop-Settled s (alloc_key service node) change max_retries c b h
