-- ===== src/Autoscaler/Ceiling.antt =====
-- What a decision to grow rests on.
use asty.Common.{
  ◌≡◌, refl, ap, subst, Bool, true, false, Option, none, some, List, [], ◌∷◌, Text, arith,
  if◌then◌else◌, In, value_or, inl, inr, Bool-cases, In-keep,
}
use asty.Common.Int.{pos}
use asty.Common.Map.{has}
use asty.Types.Allocation.{ServiceAllocation, scale_up}
use asty.Types.Node.{NodeInfo, is_ready}
use asty.Types.Service.{ServiceDefinition}
use asty.Kv.Store.{Store}
use asty.Scheduler.Helpers.{Config, filter_healthy, node_ids_of, datacenter_counts}
use asty.Scheduler.Bounds.{In-pick_candidates}
use asty.Scheduler.Reconcile.{node_alloc_counts}
use asty.Autoscaler.Signals.{find_traffic, find_node_with_traffic, find_overloaded_alloc, first_of}
use asty.Autoscaler.Evaluate.{
  ScalingDecision, at_ceiling, evaluate_scale_up, relieve, pick_free_node, grow, gateway_traffic,
  exceeded_targets,
}

-- A place for a new copy: a node of the cluster that is ready and holds no live copy.
pub record IsFree (nodes : List NodeInfo) (live : List ServiceAllocation) (n : NodeInfo)
    : Type 0 where
  pub known : In n nodes
  pub is_up : is_ready n.status ≡ true
  pub unused : has n.id (node_ids_of live) ≡ false

find_traffic_lem :
    (traffic : NodeInfo → Bool) (nodes : List NodeInfo) (used : List Text) (n : NodeInfo)
    → find_traffic traffic nodes used ≡ some n
    → In n nodes × (is_ready n.status ≡ true) × (has n.id used ≡ false)
unfolding find_traffic
find_traffic_lem traffic [] used n e = cc
find_traffic_lem traffic (x ∷ ns) used n e =
    ground
      (arith, find_traffic_lem traffic ns used n, e, ap (λ (o : Option NodeInfo). value_or x o))

pub first_of-In : {A : Type 0} (xs : List A) (a : A) → first_of xs ≡ some a → In a xs
unfolding first_of
first_of-In [] a e = cc
first_of-In (x ∷ xs) a e = inl (ap (value_or x) e)

module _ {B : Type 0} (s : Store B) (cfg : Config) (traffic : NodeInfo → Bool)
    (svc : ServiceDefinition) (live : List ServiceAllocation) (nodes : List NodeInfo) where
  pick_free_node-IsFree :
      (b : B) (n : NodeInfo)
      → (pick_free_node s cfg traffic svc live nodes b).0 ≡ some n
      → IsFree nodes live n
  unfolding pick_free_node filter_healthy
  pick_free_node-IsFree b n e =
      let healthy = filter_healthy nodes in
      let occupied = node_ids_of live in
      let (up, free, room) =
        In-pick_candidates cfg svc.resources healthy occupied (datacenter_counts healthy occupied)
          (node_alloc_counts s cfg b).0 (pos 1) n (first_of-In _ n e) in
      let (is_up, known) = In-keep (λ x. is_ready x.status) n nodes up in
      record { known = known; is_up = is_up; unused = free }

  -- What a decision to grow is.
  abbrev pub Grows : ScalingDecision → Type 0
  Grows d = ((n : NodeInfo) × IsFree nodes live n × (d.target_node ≡ n.id)) × (d.action ≡ scale_up)

  grown_lem :
      (o : Option NodeInfo) (d : ScalingDecision)
      → ((n : NodeInfo) → o ≡ some n → IsFree nodes live n)
      → elim o as (λ x. Option ScalingDecision) [
        | none ↦ none
        | some n ↦ some (grow svc.name exceeded_targets n)
      ]
        ≡ some d
      → Grows d
  grown_lem none d h e = cc
  grown_lem (some n) d h e = subst Grows (ap (value_or d) e) ((n, h n refl, refl), refl)

  relieve-Grows :
      (o : Option ServiceAllocation) (b : B) (d : ScalingDecision)
      → (relieve s cfg traffic svc live nodes o b).0 ≡ some d
      → Grows d
  unfolding relieve
  relieve-Grows none b d e = cc
  relieve-Grows (some hot) b d e =
      grown_lem (pick_free_node s cfg traffic svc live nodes b).0 d (pick_free_node-IsFree b) e

  found_lem :
      (o : Option NodeInfo) (b : B) (d : ScalingDecision)
      → find_node_with_traffic traffic nodes live ≡ o
      → (elim o as (λ x. Option ScalingDecision × B) [
        | some n ↦ (some (grow svc.name gateway_traffic n), b)
        | none ↦ relieve s cfg traffic svc live nodes (find_overloaded_alloc cfg svc live) b
      ]).0
        ≡ some d
      → Grows d
  unfolding find_node_with_traffic
  found_lem none b d f e = relieve-Grows _ b d e
  found_lem (some n) b d f e =
      let (known, is_up, unused) = find_traffic_lem traffic nodes (node_ids_of live) n f in
      subst Grows (ap (value_or d) e)
        ((n, record { known = known; is_up = is_up; unused = unused }, refl), refl)

  -- A decision of `evaluateScaleUp` is to grow onto a ready node that holds no live copy, and is
  -- taken only below the configured maximum, where one is set.
  pub evaluate_scale_up_lem :
      (b : B) (d : ScalingDecision)
      → (evaluate_scale_up s cfg traffic svc live nodes b).0 ≡ some d
      → (at_ceiling cfg live ≡ false) × Grows d
  unfolding evaluate_scale_up
  evaluate_scale_up_lem b d e = elim (Bool-cases (at_ceiling cfg live)) [
    | inl full ↦ ground (arith, full, e)
    | inr below ↦ (below, found_lem _ b d refl (subst (λ c. (opened c).0 ≡ some d) below e))
  ]
    where
      opened : Bool → Option ScalingDecision × B
      opened c = if c then (none, b) else elim (find_node_with_traffic traffic nodes live) [
        | some n ↦ (some (grow svc.name gateway_traffic n), b)
        | none ↦ relieve s cfg traffic svc live nodes (find_overloaded_alloc cfg svc live) b
      ]
