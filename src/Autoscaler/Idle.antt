-- ===== src/Autoscaler/Idle.antt =====
-- What it is for a service to be idle, and for its idle window to have passed.
use asty.Common.{
  ℕ, ◌+◌, ◌*◌, ◌/◌, ◌≤◌, ◌≡◌, refl, ◌⊎◌, inl, inr, Bool, true, false, Option, none, some, List, [],
  ◌∷◌, Text, arith, length, ◌==◌, Bool-cases,
}
use asty.Common.Int.{pos, pos_part, ◌≤ℤ◌, sub_ℕ, leb_ℤ}
use asty.Types.Allocation.{ServiceAllocation, ServiceCooldown}
use asty.Types.Service.{ServiceDefinition}
use asty.Kv.Store.{Store}
use asty.Kv.Cooldowns.{get_service_cooldown}
use asty.Scheduler.Helpers.{Config}
use asty.Autoscaler.Signals.{
  cpu_sum, memory_sum, average_usage, memory_percent, window_elapsed, idle_window_satisfied,
}
use asty.Autoscaler.Evaluate.{is_busy}

-- The sum of a figure over the copies.
pub total : (ServiceAllocation → ℕ) → List ServiceAllocation → ℕ
total f [] = 0
total f (a ∷ as') = f a + total f as'

-- On average the copies use at most half of the target of CPU, and of memory where the service declares
-- a limit.
pub record IsIdle (cfg : Config) (svc : ServiceDefinition) (copies : List ServiceAllocation)
    : Type 0 where
  pub cpu : total (λ a. a.cpu_usage) copies / length copies ≤ cfg.target_cpu / 2
  pub memory :
      (svc.resources.memory ≤ℤ pos 0)
      ⊎ (total (λ a. a.memory_usage) copies / length copies * 100 / pos_part svc.resources.memory
          ≤ cfg.target_memory / 2)

cpu_sum-total : (as' : List ServiceAllocation) → cpu_sum as' ≡ total (λ a. a.cpu_usage) as'
unfolding cpu_sum total
cpu_sum-total [] = refl
cpu_sum-total (a ∷ as') = omega (arith, cpu_sum-total as')

memory_sum-total : (as' : List ServiceAllocation) → memory_sum as' ≡ total (λ a. a.memory_usage) as'
unfolding memory_sum total
memory_sum-total [] = refl
memory_sum-total (a ∷ as') = omega (arith, memory_sum-total as')

average_usage-total :
    (a : ServiceAllocation) (as' : List ServiceAllocation)
    → average_usage (a ∷ as') ≡ (
      total (λ x. x.cpu_usage) (a ∷ as') / length (a ∷ as'),
      total (λ x. x.memory_usage) (a ∷ as') / length (a ∷ as'),
    )
unfolding average_usage
average_usage-total a as' =
    let filled : (length (a ∷ as') == 0) ≡ false = ground arith in
    rw (filled, cpu_sum-total (a ∷ as'), memory_sum-total (a ∷ as')) refl

pub is_busy-IsIdle :
    (cfg : Config) (svc : ServiceDefinition) (a : ServiceAllocation) (as' : List ServiceAllocation)
    → is_busy cfg svc (a ∷ as') ≡ false
    → IsIdle cfg svc (a ∷ as')
unfolding is_busy memory_percent
is_busy-IsIdle cfg svc a as' h = record {
  cpu = ground (arith, h, average_usage-total a as');
  memory = ground (arith, h, average_usage-total a as');
}

-- No window is configured, or the record of the service has a time since when it has been idle, and by
-- the clock behind that read the window has passed.
pub HasWaited : {B : Type 0} → Store B → Config → Text → B → Type 0
HasWaited s cfg service b =
    (cfg.idle_hold ≡ 0)
    ⊎ ((c : ServiceCooldown) × (t : ℕ) × ((get_service_cooldown s service b).0 ≡ some c)
        × (c.idle_since ≡ some t)
        × (cfg.idle_hold + t ≤ (s.now (get_service_cooldown s service b).1).0))

module _ {B : Type 0} (s : Store B) (cfg : Config) (service : Text) where
  elapsed_le :
      (hold now t : ℕ) → (hold ≡ 0 → ⊥) → leb_ℤ (pos hold) (sub_ℕ now t) ≡ true → hold + t ≤ now
  elapsed_le hold now t z h = ground (arith, z, h)

  window_elapsed-passed :
      (o : Option ℕ) (b : B)
      → (cfg.idle_hold ≡ 0 → ⊥)
      → (window_elapsed s cfg service o b).0 ≡ true
      → (t : ℕ) × (o ≡ some t) × (cfg.idle_hold + t ≤ (s.now b).0)
  unfolding window_elapsed
  window_elapsed-passed none b z h = absurd (ground (arith, h))
  window_elapsed-passed (some t) b z h = (t, refl, elapsed_le cfg.idle_hold (s.now b).0 t z h)

  read-passed :
      (o : Option ServiceCooldown) (b : B)
      → (cfg.idle_hold ≡ 0 → ⊥)
      → (elim o as (λ x. Bool × B) [
        | none ↦ (false, b)
        | some cd ↦ window_elapsed s cfg service cd.idle_since b
      ]).0
        ≡ true
      → (c : ServiceCooldown) × (t : ℕ) × (o ≡ some c)
        × (c.idle_since ≡ some t)
        × (cfg.idle_hold + t ≤ (s.now b).0)
  read-passed none b z h = absurd (ground (arith, h))
  read-passed (some c) b z h =
      let (t, e, l) = window_elapsed-passed c.idle_since b z h in (c, t, refl, e, l)

  pub idle_window_satisfied-HasWaited :
      (b : B) → (idle_window_satisfied s cfg service b).0 ≡ true → HasWaited s cfg service b
  unfolding idle_window_satisfied HasWaited
  idle_window_satisfied-HasWaited b h = elim (Bool-cases (cfg.idle_hold == 0)) [
    | inl z ↦ inl (ground (arith, z))
    | inr z ↦ inr (
        read-passed (get_service_cooldown s service b).0 (get_service_cooldown s service b).1
          (λ e. ground (arith, z, e)) (ground (arith, h, z)))
  ]
