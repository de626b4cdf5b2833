-- ===== src/Dashboard/Api.antt =====
-- asty/internal/api/dashboard: lookup.go, leaderguard.go and what the handlers share.
use asty.Common.{
  ℕ, suc, Bool, true, false, Option, none, some, List, [], ◌∷◌, Text, same, if◌then◌else◌, keep,
}
use asty.Common.Int.{ℤ}
use asty.Common.Map.{Map, lookup, insert}
use asty.Types.Allocation.{ServiceAllocation, is_status, running}
use asty.Types.Service.{ServiceDefinition}
use asty.Kv.Store.{Store}
use asty.Kv.Allocations.{list_all_allocations}

-- What a handler answers: the status code and what the body says.
pub data Body : Type 0 where
  error : Text → Body
  scaled : ℤ → ℕ → Body
  allocation_restarted : Text → Body
  allocation_deleted : Text → Body
  node_status : Text → Body
  node_killed : Bool → Body

pub record Reply : Type 0 where
  pub code : ℕ
  pub body : Body

unfoldable pub write_error : ℕ → Text → Reply
write_error code message = record { code = code; body = error message }

-- What the handlers need of the server. A command to an agent and the wait for a stop answer whether
-- they succeed; `snapshot` has the allocations of the stream's snapshot, if there is one.
pub record Api (B : Type 0) : Type 0 where
  pub store : Store B
  pub services : List ServiceDefinition
  pub max_copies : ℤ
  pub snapshot : B → Option (List ServiceAllocation)
  pub restart_service : Text → Text → B → Bool × B
  pub stop_service : Text → Text → B → Bool × B
  pub wait_stopped : Text → Text → B → Bool × B
  pub reconcile_service : Text → B → B
  pub publish_scale : Text → ℕ → ℤ → B → B
  pub is_stabilized : B → Bool
  pub shutdown_agent : Text → B → Bool × B

unfoldable pub find_service : Text → List ServiceDefinition → Option ServiceDefinition
find_service name [] = none
find_service name (svc ∷ svcs) =
    let rest = find_service name svcs in if same svc.name name then some svc else rest

unfoldable pub find_alloc : Text → List ServiceAllocation → Option ServiceAllocation
find_alloc id [] = none
find_alloc id (a ∷ as') = let rest = find_alloc id as' in if same a.id id then some a else rest

-- `allocCounts`.
pub record AllocCounts : Type 0 where
  pub planned : ℕ
  pub running : ℕ

unfoldable pub counted_in : Map AllocCounts → ServiceAllocation → AllocCounts
counted_in m a =
    let c : AllocCounts = elim (lookup a.node_id m) [
      | none ↦ record { planned = 0; running = 0 }
      | some found ↦ found
    ] in
    record {
      planned = suc c.planned;
      running = if is_status a.status running then suc c.running else c.running;
    }

unfoldable pub count_all : Map AllocCounts → List ServiceAllocation → Map AllocCounts
unfolding counted_in
count_all m [] = m
count_all m (a ∷ as') = count_all (insert a.node_id (counted_in m a) m) as'

module _ {B : Type 0} (api : Api B) where
  -- The allocations of the snapshot, or those of the bucket, or none after an error.
  unfoldable pub known_allocs : B → List ServiceAllocation × B
  known_allocs b = elim (api.snapshot b) [
    | some allocs ↦ (allocs, b)
    | none ↦
        let (listed, b₁) = list_all_allocations api.store b in
        (elim listed [ none ↦ [] | some allocs ↦ allocs ], b₁)
  ]

  -- `allocByID`.
  unfoldable pub alloc_by_id : Text → B → Option ServiceAllocation × B
  unfolding known_allocs find_alloc
  alloc_by_id id b = let (allocs, b₁) = known_allocs b in (find_alloc id allocs, b₁)

  -- `allocsByNode`.
  unfoldable pub allocs_by_node : Text → B → List ServiceAllocation × B
  unfolding known_allocs
  allocs_by_node node b =
      let (allocs, b₁) = known_allocs b in (keep (λ a. same a.node_id node) allocs, b₁)

  -- `nodeAllocCounts`.
  unfoldable pub node_alloc_counts : B → Map AllocCounts × B
  unfolding known_allocs count_all
  node_alloc_counts b = let (allocs, b₁) = known_allocs b in (count_all [] allocs, b₁)

-- `leaderOnly`: whether this server has an election and leads, and the leader's address as far as it is
-- known. A follower passes the request on.
pub data Guarded : Type 0 where
  handle_here : Guarded
  proxy_to : Text → Guarded
  unavailable : Guarded

unfoldable pub leader_only : Option Bool → Text → Guarded
leader_only none ip = unavailable
leader_only (some true) ip = handle_here
leader_only (some false) [] = unavailable
leader_only (some false) (c ∷ ip) = proxy_to (c ∷ ip)
