-- ===== src/Types/Allocation/Cooldown.antt =====
-- The cooldown status that the dashboard shows, and which action it calls the last.
use asty.Common.{ℕ, ◌≡◌, ◌⊎◌, Option, none, some, max, arith, true, ◌↔◌}
use asty.Types.Allocation.{
  AllocationStatus, is_live, occupies, failed, ServiceCooldown, unix, status,
}

-- A slot is held by the live copies and, until they are pruned, by the failed ones.
pub occupies_iff :
    (s : AllocationStatus) → (occupies s ≡ true) ↔ ((is_live s ≡ true) ⊎ (s ≡ failed))
unfolding occupies is_live
occupies_iff s = (fwd s, bwd s)
  where
    fwd : (t : AllocationStatus) → occupies t ≡ true → (is_live t ≡ true) ⊎ (t ≡ failed)
    fwd t h = ground arith

    bwd : (t : AllocationStatus) → (is_live t ≡ true) ⊎ (t ≡ failed) → occupies t ≡ true
    bwd t h = ground arith

abbrev pub unix_or_zero : Option ℕ → ℕ
unix_or_zero none = 0
unix_or_zero (some t) = unix t

-- The time of the last action is the later of the two, in seconds.
pub status_last_action_at :
    (c : ServiceCooldown) (at up down : ℕ)
    → (status c at up down).last_action_at
      ≡ max (unix_or_zero c.last_scale_up) (unix_or_zero c.last_scale_down)
unfolding status
status_last_action_at c at up down = ground arith
