-- ===== src/Dashboard/Refusals.antt =====
-- Which requests to scale a service and to kill a node are refused.
use asty.Common.{
  ℕ, ◌≡◌, ◌≢◌, refl, ap, subst, ◌⊎◌, inl, inr, Bool, true, false, ◌&&◌, ◌||◌, ◌==◌, Option, none,
  some, List, [], ◌∷◌, Text, codes, arith, same, same_iff, length, Bool-cases,
}
use asty.Common.Int.{ℤ, pos, ltb_ℤ, ◌≤ℤ◌}
use asty.Types.Allocation.{ServiceAllocation}
use asty.Types.Service.{ServiceDefinition}
use asty.Kv.Store.{KvError}
use asty.Kv.Settings.{set_service_scale}
use asty.Drainer.Plan.{is_system}
use asty.Dashboard.Api.{Api, Reply, write_error, find_service}
use asty.Dashboard.Services.{
  deleted_record, stop_confirmed, stop_sent, stop_and_delete_allocation, after_stop, stop_victims,
  shrink, scale_end, scale_stored, scale_found, handle_service_scale,
}
use asty.Dashboard.Nodes.{kill_node, handle_node_kill}

-- The codes of a request that is refused.
pub is_refusal : ℕ → Bool
is_refusal code = code == 400 || code == 404 || code == 409

module _ {B : Type 0} (api : Api B) where
  -- An error of a stop is not a refusal.
  NotRefused : Option Reply → Type 0
  NotRefused none = Unit
  NotRefused (some r) = is_refusal r.code ≡ false

  deleted_record-NotRefused : (r : Option KvError × B) → NotRefused (deleted_record api r).0
  unfolding deleted_record NotRefused is_refusal write_error
  deleted_record-NotRefused (none, b) = tt
  deleted_record-NotRefused (some e, b) = refl

  stop_confirmed-NotRefused :
      (service node : Text) (r : Bool × B) → NotRefused (stop_confirmed api service node r).0
  unfolding stop_confirmed NotRefused is_refusal write_error
  stop_confirmed-NotRefused service node (false, b) = refl
  stop_confirmed-NotRefused service node (true, b) = deleted_record-NotRefused _

  stop_sent-NotRefused :
      (service node : Text) (r : Bool × B) → NotRefused (stop_sent api service node r).0
  unfolding stop_sent NotRefused is_refusal write_error
  stop_sent-NotRefused service node (false, b) = refl
  stop_sent-NotRefused service node (true, b) = stop_confirmed-NotRefused service node _

  after_stop-NotRefused :
      (rest : B → Option Reply × B) (r : Option Reply × B)
      → ((b : B) → NotRefused (rest b).0)
      → NotRefused r.0
      → NotRefused (after_stop api rest r).0
  unfolding after_stop
  after_stop-NotRefused rest (some r, b) k n = n
  after_stop-NotRefused rest (none, b) k n = k b

  stop_victims-NotRefused :
      (service : Text) (vs : List ServiceAllocation) (b : B)
      → NotRefused (stop_victims api service vs b).0
  unfolding stop_victims stop_and_delete_allocation NotRefused
  stop_victims-NotRefused service [] b = tt
  stop_victims-NotRefused service (v ∷ vs) b =
      after_stop-NotRefused _ _ (stop_victims-NotRefused service vs)
        (stop_sent-NotRefused service v.node_id _)

  shrink-NotRefused :
      (service : Text) (count : ℤ) (live : List ServiceAllocation) (b : B)
      → NotRefused (shrink api service count live b).0
  unfolding shrink NotRefused
  shrink-NotRefused service count live b = elim (Bool-cases (ltb_ℤ count (pos (length live)))) [
    | inl h ↦ rw h (stop_victims-NotRefused service _ _)
    | inr h ↦ rw h tt
  ]

  scale_end-NotRefused :
      (service : Text) (count : ℤ) (n : ℕ) (r : Option Reply × B)
      → NotRefused r.0
      → is_refusal (scale_end api service count n r).0.code ≡ false
  unfolding scale_end NotRefused is_refusal
  scale_end-NotRefused service count n (some r, b) k = k
  scale_end-NotRefused service count n (none, b) k = refl

  scale_stored-NotRefused :
      (service : Text) (count : ℤ) (r : Option KvError × B)
      → is_refusal (scale_stored api service count r).0.code ≡ false
  unfolding scale_stored is_refusal write_error
  scale_stored-NotRefused service count (some e, b) = refl
  scale_stored-NotRefused service count (none, b) =
      scale_end-NotRefused service count _ _ (shrink-NotRefused service count _ _)

  -- A request to scale that can be carried out.
  pub record CanScale (service : Text) (count : ℤ) : Type 0 where
    pub svc : ServiceDefinition
    pub found : find_service service api.services ≡ some svc
    pub regular : is_system svc.type ≡ false
    pub floor : pos 0 ≤ℤ count
    pub ceiling : (api.max_copies ≤ℤ pos 0) ⊎ (count ≤ℤ api.max_copies)

  -- What the guards of the handler come to.
  scale_found-cases :
      (svc : ServiceDefinition) (service : Text) (count : ℤ) (b : B)
      → pos 0 ≤ℤ count
      → find_service service api.services ≡ some svc
      → ((is_refusal (scale_found api svc service count b).0.code ≡ true)
          × ((scale_found api svc service count b).1 ≡ b)
          × (CanScale service count → ⊥))
        ⊎ ((is_refusal (scale_found api svc service count b).0.code ≡ false)
            × CanScale service count)
  unfolding scale_found is_refusal write_error
  scale_found-cases svc service count b z f = elim (Bool-cases (is_system svc.type)) [
    | inl y ↦ inl (rw y refl, rw y refl, λ c. ground (arith, y, f, c.found, c.regular))
    | inr y ↦ elim (Bool-cases (ltb_ℤ (pos 0) api.max_copies && ltb_ℤ api.max_copies count)) [
      | inl m ↦ inl (rw (y, m) refl, rw (y, m) refl, λ c. ground (arith, m, c.ceiling))
      | inr m ↦ inr (
        rw (y, m)
            (scale_stored-NotRefused service count (set_service_scale api.store service count b)),
        record { svc = svc; found = f; regular = y; floor = z; ceiling = ground (arith, m) },
      )
    ]
  ]

  found-cases :
      (service : Text) (count : ℤ) (b : B) (o : Option ServiceDefinition)
      → pos 0 ≤ℤ count
      → find_service service api.services ≡ o
      → let r : Reply × B = elim o [
        | none ↦ (write_error 404 (codes "service not found"), b)
        | some svc ↦ scale_found api svc service count b
      ] in
        ((is_refusal r.0.code ≡ true) × (r.1 ≡ b) × (CanScale service count → ⊥))
        ⊎ ((is_refusal r.0.code ≡ false) × CanScale service count)
  unfolding is_refusal write_error
  found-cases service count b none z f = inl (refl, refl, λ c. ground (arith, f, c.found))
  found-cases service count b (some svc) z f = scale_found-cases svc service count b z f

  count-cases :
      (service : Text) (count : ℤ) (b : B)
      → let r = handle_service_scale api service (some count) b in
        ((is_refusal r.0.code ≡ true) × (r.1 ≡ b) × (CanScale service count → ⊥))
        ⊎ ((is_refusal r.0.code ≡ false) × CanScale service count)
  unfolding handle_service_scale is_refusal write_error
  count-cases service count b = elim (Bool-cases (ltb_ℤ count (pos 0))) [
    | inl n ↦ inl (rw n refl, rw n refl, λ c. ground (arith, n, c.floor))
    | inr n ↦ rw n (found-cases service count b _ (ground (arith, n)) refl)
  ]

  -- A request to scale is refused with 400, 404 or 409 and changes nothing, or it names a service that
  -- is known and not a system service, with a count from 0 to the maximum of copies if there is one,
  -- and is not answered with one of these codes. No request of the second kind is refused.
  pub handle_service_scale-cases :
      (service : Text) (body : Option ℤ) (b : B)
      → let r = handle_service_scale api service body b in
        ((is_refusal r.0.code ≡ true)
          × (r.1 ≡ b)
          × ((count : ℤ) → body ≡ some count → CanScale service count → ⊥))
        ⊎ ((is_refusal r.0.code ≡ false)
            × ((count : ℤ) × (body ≡ some count) × CanScale service count))
  unfolding handle_service_scale is_refusal write_error
  handle_service_scale-cases service none b = inl (refl, refl, λ count e c. ground (arith, e))
  handle_service_scale-cases service (some count) b = elim (count-cases service count b) [
    | inl h ↦ inl (h.0, h.1, λ n e c. h.2 (subst (CanScale service) (ground (arith, e)) c))
    | inr h ↦ inr (h.0, (count, refl, h.1))
  ]

  -- A request to kill a node is refused and changes nothing, or it is confirmed by the node's name while
  -- the cluster is stabilized, and answered with 200; and only then.
  pub handle_node_kill-cases :
      (node : Text) (body : Option Text) (b : B)
      → let r = handle_node_kill api node body b in
        ((is_refusal r.0.code ≡ true)
          × (r.1 ≡ b)
          × ((body ≢ some node) ⊎ (api.is_stabilized b ≡ false)))
        ⊎ ((r.0.code ≡ 200)
            × (r ≡ kill_node api node b)
            × (body ≡ some node)
            × (api.is_stabilized b ≡ true))
  unfolding handle_node_kill is_refusal write_error kill_node
  handle_node_kill-cases node none b = inl (refl, refl, inl (λ e. ground (arith, e)))
  handle_node_kill-cases node (some name) b = elim (Bool-cases (same name node)) [
    | inr n ↦ inl (rw n refl, rw n refl, inl (λ e. ground (arith, n, e, same_iff name node)))
    | inl y ↦ elim (Bool-cases (api.is_stabilized b)) [
      | inr n ↦ inl (rw (y, n) refl, rw (y, n) refl, inr n)
      | inl k ↦ inr (rw (y, k) refl, rw (y, k) refl, ap some ((same_iff name node).0 y), k)
    ]
  ]
