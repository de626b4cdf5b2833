-- ===== src/Controller/Stale.antt =====
-- The variable `advanced` of `dispatchOne` outlives a round whose write was refused.
use asty.Common.{ℕ, suc, ◌≡◌, ap, ◌∙◌, Bool, true, false, none, some, Text, if◌then◌else◌}
use asty.Types.Allocation.{ServiceAllocation, is_status, pending, starting}
use asty.Types.Service.{ServiceDefinition}
use asty.Kv.Store.{Store, entry, conflict}
use asty.Kv.Allocations.{
  alloc_key, write_back, mutate_allocation, mutate_loop, on_fetch, on_record, on_changed, on_write,
}
use asty.Workqueue.{Workqueue}
use asty.Controller.Dispatch.{to_starting, dispatch_one, after_guard, after_dispatch}

module _ {B : Type 0} (s : Store B) (key : Text) where
  -- A round that reads a pending record and whose write is refused for its revision.
  refused_round :
      (n : ℕ) (c : Bool) (b b₁ b₂ : B) (v : Text) (r : ℕ) (a : ServiceAllocation)
      → s.get key b ≡ entry v r b₁
      → s.allocations.unmarshal v ≡ some a
      → is_status a.status pending ≡ true
      → write_back s key (record a { status = starting }) r b₁ ≡ some (conflict b₂)
      → mutate_loop s key to_starting (suc n) c b ≡ mutate_loop s key to_starting n true b₂
  unfolding mutate_loop on_fetch on_record on_changed on_write to_starting
  refused_round n c b b₁ b₂ v r a e f g h =
      ap (on_fetch s key to_starting (mutate_loop s key to_starting n) c) e
      ∙ ap (on_record s key to_starting (mutate_loop s key to_starting n) c r b₁) f
      ∙ ap
          (λ t.
            on_changed s key to_starting (mutate_loop s key to_starting n) r b₁
              (if t then (true, some (record a { status = starting })) else (c, none)))
          g
      ∙ ap (on_write s key to_starting (mutate_loop s key to_starting n) true b₁) h

  -- A round that reads a record that is not pending.
  declined_round :
      (n : ℕ) (c : Bool) (b b₁ : B) (v : Text) (r : ℕ) (a : ServiceAllocation)
      → s.get key b ≡ entry v r b₁
      → s.allocations.unmarshal v ≡ some a
      → is_status a.status pending ≡ false
      → mutate_loop s key to_starting (suc n) c b ≡ (none, c, b₁)
  unfolding mutate_loop on_fetch on_record on_changed to_starting
  declined_round n c b b₁ v r a e f g =
      ap (on_fetch s key to_starting (mutate_loop s key to_starting n) c) e
      ∙ ap (on_record s key to_starting (mutate_loop s key to_starting n) c r b₁) f
      ∙ ap
          (λ t.
            on_changed s key to_starting (mutate_loop s key to_starting n) r b₁
              (if t then (true, some (record a { status = starting })) else (c, none)))
          g

-- The first round reads a pending record and its write is refused, since another writer was faster;
-- the second reads a record that is no longer pending and changes nothing. The start command goes
-- out all the same, though this call made no transition.
pub dispatch_one-stale :
    {B : Type 0} (s : Store B) (dispatch : Text → ServiceDefinition → B → Bool × B)
    (svc : ServiceDefinition) (node : Text) (now : ℕ) (q : Workqueue) (b b₁ b₂ b₃ : B) (v v' : Text)
    (r r' : ℕ) (a a' : ServiceAllocation)
    → s.get (alloc_key svc.name node) b ≡ entry v r b₁
    → s.allocations.unmarshal v ≡ some a
    → is_status a.status pending ≡ true
    → write_back s (alloc_key svc.name node) (record a { status = starting }) r b₁
      ≡ some (conflict b₂)
    → s.get (alloc_key svc.name node) b₂ ≡ entry v' r' b₃
    → s.allocations.unmarshal v' ≡ some a'
    → is_status a'.status pending ≡ false
    → dispatch_one s dispatch svc node now q b
      ≡ after_dispatch s svc node now q (dispatch node svc b₃)
unfolding dispatch_one mutate_allocation
dispatch_one-stale s dispatch svc node now q b b₁ b₂ b₃ v v' r r' a a' e f g h i j k =
    ap (after_guard s dispatch svc node now q) (
      refused_round s (alloc_key svc.name node) 7 false b b₁ b₂ v r a e f g h
      ∙ declined_round s (alloc_key svc.name node) 6 true b₂ b₃ v' r' a' i j k)
