-- ===== src/Autoscaler/Floor.antt =====
-- What a decision to shrink rests on.
use asty.Common.{
  ℕ, zero, [], ◌∷◌, ◌<◌, ◌≡◌, refl, ap, Bool, true, false, Option, none, some, List, arith, length,
  In, In-keep, value_or, subst,
}
use asty.Common.Int.{ℤ, pos, ltb_ℤ}
use asty.Types.Allocation.{AllocationStatus, ServiceAllocation, scale_down, is_status, running}
use asty.Types.Node.{NodeInfo}
use asty.Types.Service.{ServiceDefinition}
use asty.Kv.Store.{Store}
use asty.Kv.Nodes.{list_nodes}
use asty.Kv.Settings.{get_service_scale}
use asty.Scheduler.Helpers.{Config}
use asty.Scheduler.Victims.{In-pick_removal_victims}
use asty.Autoscaler.Ceiling.{first_of-In}
use asty.Autoscaler.Signals.{live_running, pick_allocation_to_remove, idle_window_satisfied}
use asty.Autoscaler.Evaluate.{
  ScalingDecision, evaluate_scale_down, choose_victim, floor_of, is_busy, shrink,
}
use asty.Autoscaler.Idle.{IsIdle, HasWaited, is_busy-IsIdle, idle_window_satisfied-HasWaited}

module _ {B : Type 0} (s : Store B) (cfg : Config) (traffic : NodeInfo → Bool)
    (svc : ServiceDefinition) (live : List ServiceAllocation) where
  -- What a decision to shrink is.
  abbrev pub Shrinks : ScalingDecision → Type 0
  Shrinks d =
      ((a : ServiceAllocation) × In a live × (a.status ≡ running) × (d.remove_node ≡ a.node_id))
      × (d.action ≡ scale_down)

  live_running-In :
      (a : ServiceAllocation) → In a (live_running live) → In a live × (a.status ≡ running)
  unfolding live_running is_status
  live_running-In a m =
      let (test, known) = In-keep _ a live m in (known, is_running a.status (ground (arith, test)))
    where
      is_running : (t : AllocationStatus) → is_status t running ≡ true → t ≡ running
      is_running t h = ground arith

  shrunk_lem :
      (o : Option ServiceAllocation) (d : ScalingDecision)
      → ((a : ServiceAllocation) → o ≡ some a → In a (live_running live))
      → elim o as (λ x. Option ScalingDecision) [
        | none ↦ none
        | some victim ↦ some (shrink svc.name victim)
      ]
        ≡ some d
      → Shrinks d
  shrunk_lem none d h e = cc
  shrunk_lem (some a) d h e =
      let (known, up) = live_running-In a (h a refl) in
      subst Shrinks (ap (value_or d) e) ((a, known, up, refl), refl)

  chosen_lem :
      (o : Option (List NodeInfo)) (b : B) (d : ScalingDecision)
      → (elim o as (λ x. Option ScalingDecision × B) [
        | none ↦ (none, b)
        | some ns ↦ (
          elim (pick_allocation_to_remove (live_running live) ns) [
            | none ↦ none
            | some victim ↦ some (shrink svc.name victim)
          ],
          b,
        )
      ]).0
        ≡ some d
      → Shrinks d
  unfolding pick_allocation_to_remove
  chosen_lem none b d e = cc
  chosen_lem (some ns) b d e =
      shrunk_lem (pick_allocation_to_remove (live_running live) ns) d
        (λ a f. In-pick_removal_victims (live_running live) ns (pos 1) a (first_of-In _ a f)) e

  choose_victim-Shrinks :
      (b : B) (d : ScalingDecision)
      → (choose_victim s cfg traffic svc (live_running live) b).0 ≡ some d
      → Shrinks d
  unfolding choose_victim
  choose_victim-Shrinks b d e = chosen_lem (list_nodes s b).0 (list_nodes s b).1 d e

  -- The floor is the operator's override, or else the configured minimum.
  abbrev pub floor_setting : Option ℤ → ℤ
  floor_setting none = cfg.min_copies
  floor_setting (some n) = n

  above_floor : (o : Option ℤ) (n : ℕ) → floor_of cfg o < n → ltb_ℤ (floor_setting o) (pos n) ≡ true
  unfolding floor_of
  above_floor none n h = ground (arith, h)
  above_floor (some k) n h = ground (arith, h)

  quiet_copies :
      (copies : List ServiceAllocation)
      → zero < length copies
      → is_busy cfg svc copies ≡ false
      → IsIdle cfg svc copies
  quiet_copies [] h k = absurd (omega (arith, h))
  quiet_copies (a ∷ as') h k = is_busy-IsIdle cfg svc a as' k

  tests :
      (b : B) (d : ScalingDecision)
      → (evaluate_scale_down s cfg traffic svc live b).0 ≡ some d
      → let (override, b₁) = get_service_scale s svc.name b in
        (floor_of cfg override < length (live_running live))
        × (is_busy cfg svc (live_running live) ≡ false)
        × ((idle_window_satisfied s cfg svc.name b₁).0 ≡ true)
        × Shrinks d
  unfolding evaluate_scale_down
  tests b d e =
      let (override, b₁) = get_service_scale s svc.name b in
      let (elapsed, b₂) = idle_window_satisfied s cfg svc.name b₁ in
      ground (arith, e, choose_victim-Shrinks b₂ d)

  -- A decision of `evaluateScaleDown` is taken only where more copies run than the floor, which is
  -- the operator's override or else the configured minimum, where these copies use on average at most
  -- half of the targets, and where no window is configured or the marker in the cooldown record is at
  -- least as old as the window; it removes one of the running copies.
  pub evaluate_scale_down_lem :
      (b : B) (d : ScalingDecision)
      → (evaluate_scale_down s cfg traffic svc live b).0 ≡ some d
      → let (override, b₁) = get_service_scale s svc.name b in
        (ltb_ℤ (floor_setting override) (pos (length (live_running live))) ≡ true)
        × IsIdle cfg svc (live_running live)
        × HasWaited s cfg svc.name b₁
        × Shrinks d
  evaluate_scale_down_lem b d e =
      let (override, b₁) = get_service_scale s svc.name b in
      let t = tests b d e in
      (
        above_floor override _ t.0,
        quiet_copies (live_running live) (omega (arith, t.0)) t.1,
        idle_window_satisfied-HasWaited s cfg svc.name b₁ t.2,
        t.3,
      )
