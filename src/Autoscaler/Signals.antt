-- ===== src/Autoscaler/Signals.antt =====
-- asty/internal/ops/autoscaler: what the autoscaler reads off the copies and the cooldown record
-- (cooldown.go, and the helpers of scale_up.go and scale_down.go).
use asty.Common.{
  ℕ, ◌+◌, ◌*◌, ◌/◌, Bool, true, false, not, ◌&&◌, Option, none, some, List, [], ◌∷◌, Text, ltb,
  ◌==◌, if◌then◌else◌, length, keep,
}
use asty.Common.Int.{pos, pos_part, sub_ℕ, ltb_ℤ, leb_ℤ}
use asty.Common.Map.{has}
use asty.Types.Allocation.{ServiceAllocation, ServiceCooldown, is_status, running}
use asty.Types.Node.{NodeInfo, is_ready}
use asty.Types.Service.{ServiceDefinition}
use asty.Kv.Store.{Store}
use asty.Kv.Cooldowns.{get_service_cooldown, mark_idle_since}
use asty.Scheduler.Helpers.{Config, node_ids_of, pick_removal_victims}

-- The `switch` of `lastActionAt`, on `LastScaleUp` and `LastScaleDown`.
unfoldable pub latest_of : Option ℕ → Option ℕ → Option ℕ
latest_of none none = none
latest_of none (some d) = some d
latest_of (some u) none = some u
latest_of (some u) (some d) = if ltb d u then some u else some d

unfoldable pub last_action_of : ServiceCooldown → Option ℕ
unfolding latest_of
last_action_of c = latest_of c.last_scale_up c.last_scale_down

-- The window of `inCooldown`, the larger of the two.
unfoldable pub cooldown_window : Config → ℕ
cooldown_window cfg =
    if ltb cfg.cooldown_down cfg.cooldown_up then cfg.cooldown_up else cfg.cooldown_down

unfoldable pub within_window : Config → Option ℕ → ℕ → Bool
unfolding cooldown_window
within_window cfg none now = false
within_window cfg (some last) now = ltb_ℤ (sub_ℕ now last) (pos (cooldown_window cfg))

-- `liveRunning`.
unfoldable pub live_running : List ServiceAllocation → List ServiceAllocation
live_running live = keep (λ a. is_status a.status running && ltb 0 a.pid) live

unfoldable pub cpu_sum : List ServiceAllocation → ℕ
cpu_sum [] = 0
cpu_sum (a ∷ as') = a.cpu_usage + cpu_sum as'

unfoldable pub memory_sum : List ServiceAllocation → ℕ
memory_sum [] = 0
memory_sum (a ∷ as') = a.memory_usage + memory_sum as'

unfoldable pub average_usage : List ServiceAllocation → ℕ × ℕ
unfolding cpu_sum memory_sum
average_usage allocs =
    if length allocs == 0
    then (0, 0)
    else (cpu_sum allocs / length allocs, memory_sum allocs / length allocs)

-- `usage * 100 / svc.Resources.Memory`, where a limit is declared.
unfoldable pub memory_percent : ServiceDefinition → ℕ → ℕ
memory_percent svc usage = usage * 100 / pos_part svc.resources.memory

abbrev pub has_limit : ServiceDefinition → Bool
has_limit svc = ltb_ℤ (pos 0) svc.resources.memory

unfoldable pub is_overloaded : Config → ServiceDefinition → ServiceAllocation → Bool
unfolding memory_percent
is_overloaded cfg svc a =
    if not (is_status a.status running)
    then false
    else if a.pid == 0
    then false
    else if ltb cfg.target_cpu a.cpu_usage
    then true
    else has_limit svc && ltb cfg.target_memory (memory_percent svc a.memory_usage)

unfoldable pub find_overloaded_alloc :
    Config → ServiceDefinition → List ServiceAllocation → Option ServiceAllocation
unfolding is_overloaded
find_overloaded_alloc cfg svc [] = none
find_overloaded_alloc cfg svc (a ∷ live) =
    let rest = find_overloaded_alloc cfg svc live in
    if is_overloaded cfg svc a then some a else rest

-- The loop of `findNodeWithTrafficWithoutService`.
unfoldable pub find_traffic : (NodeInfo → Bool) → List NodeInfo → List Text → Option NodeInfo
find_traffic traffic [] used = none
find_traffic traffic (n ∷ ns) used =
    let rest = find_traffic traffic ns used in
    if not (is_ready n.status)
    then rest
    else if has n.id used
    then rest
    else if not (traffic n)
    then rest
    else some n

unfoldable pub find_node_with_traffic :
    (NodeInfo → Bool) → List NodeInfo → List ServiceAllocation → Option NodeInfo
unfolding find_traffic
find_node_with_traffic traffic nodes live = find_traffic traffic nodes (node_ids_of live)

unfoldable pub first_of {ℓ} : {A : Type ℓ} → List A → Option A
first_of [] = none
first_of (a ∷ as') = some a

unfoldable pub pick_allocation_to_remove :
    List ServiceAllocation → List NodeInfo → Option ServiceAllocation
unfolding first_of
pick_allocation_to_remove live nodes = first_of (pick_removal_victims live nodes (pos 1))

module _ {B : Type 0} (s : Store B) (cfg : Config) where
  -- `lastActionAt`: a record that cannot be read counts as no action.
  unfoldable pub last_action_at : Text → B → Option ℕ × B
  unfolding last_action_of
  last_action_at service b =
      let (c, b₁) = get_service_cooldown s service b in
      (elim c [ none ↦ none | some cd ↦ last_action_of cd ], b₁)

  -- `inCooldown`; the clock is read where there was an action.
  unfoldable pub in_cooldown : Text → B → Bool × B
  unfolding within_window last_action_at
  in_cooldown service b =
      let (last, b₁) = last_action_at service b in
      let (now, b₂) = s.now b₁ in
      elim last [ none ↦ (false, b₁) | some t ↦ (within_window cfg (some t) now, b₂) ]

  -- `idleWindowSatisfied`, from the marker on.
  unfoldable pub window_elapsed : Text → Option ℕ → B → Bool × B
  window_elapsed service none b =
      let (now, b₁) = s.now b in
      let (e, b₂) = mark_idle_since s service (some now) b₁ in (false, b₂)
  window_elapsed service (some t) b =
      let (now, b₁) = s.now b in (leb_ℤ (pos cfg.idle_hold) (sub_ℕ now t), b₁)

  unfoldable pub idle_window_satisfied : Text → B → Bool × B
  unfolding window_elapsed
  idle_window_satisfied service b =
      let (c, b₁) = get_service_cooldown s service b in
      if cfg.idle_hold == 0
      then (true, b)
      else elim c [ none ↦ (false, b₁) | some cd ↦ window_elapsed service cd.idle_since b₁ ]

  unfoldable pub clear_idle_marker : Text → B → B
  clear_idle_marker service b =
      let (c, b₁) = get_service_cooldown s service b in
      elim c [
        | none ↦ b₁
        | some cd ↦ elim cd.idle_since [
          | none ↦ b₁
          | some t ↦ let (e, b₂) = mark_idle_since s service none b₁ in b₂
        ]
      ]
