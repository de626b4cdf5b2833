-- ===== src/Server/Reaper.antt =====
-- asty/internal/server/deadpeers.go and clustersize.go: the peers that are evicted from the bus's own
-- group, and its size. `remove` is the request to evict a peer.
use asty.Common.{
  ℕ, zero, suc, ◌+◌, leb, Bool, true, false, ◌||◌, Option, none, some, List, [], ◌∷◌, Text, same,
  if◌then◌else◌, length, ◌≡◌, ◌⊎◌, In,
}
use asty.Common.Int.{ℤ, pos, pos_part, ltb_ℤ}
use asty.Common.Map.{put}

pub record MetaPeer : Type 0 where
  pub name : Text
  pub offline : Bool
  pub active : ℕ  -- nanoseconds since its last heartbeat

-- `jszResponse`.
pub record JszResponse : Type 0 where
  pub server : Text
  pub leader : Text
  pub size : ℤ
  pub replicas : List MetaPeer

abbrev pub inactivity_threshold : ℕ
inactivity_threshold = 15000000000

unfoldable pub is_gone : MetaPeer → Bool
is_gone p = p.offline || leb inactivity_threshold p.active

unfoldable pub gone_names : List MetaPeer → List Text
unfolding is_gone
gone_names [] = []
gone_names (p ∷ ps) = let rest = gone_names ps in if is_gone p then p.name ∷ rest else rest

-- Whether a reply is from the leader of the group.
unfoldable pub leads : Text → Text → Bool
leads [] server = false
leads (c ∷ s) server = same (c ∷ s) server

unfoldable pub is_authoritative : JszResponse → Bool
unfolding leads
is_authoritative r = leads r.leader r.server

-- `offlineMetaPeers` over the replies up to the deadline; a reply that does not parse is `none`. The
-- answer `none` is an error.
unfoldable pub offline_meta_peers : List (Option JszResponse) → Option (List Text)
unfolding is_authoritative gone_names
offline_meta_peers [] = none
offline_meta_peers (none ∷ rs) = offline_meta_peers rs
offline_meta_peers (some r ∷ rs) =
    let rest = offline_meta_peers rs in
    if is_authoritative r then some (gone_names r.replicas) else rest

-- The loop of `reapDeadPeers`: the peers that it asks to evict, in order.
unfoldable pub evicted : Text → List Text → List Text
evicted me [] = []
evicted me (p ∷ ps) = let rest = evicted me ps in if same p me then rest else p ∷ rest

unfoldable pub remove_all : {B : Type 0} → (Text → B → Bool × B) → List Text → B → B
remove_all remove [] b = b
remove_all remove (p ∷ ps) b = remove_all remove ps (remove p b).1

-- `reapDeadPeers`: whether it is incomplete, the peers that were asked to go, and the state.
unfoldable pub reap_found :
    {B : Type 0} → (Text → B → Bool × B) → Text → Option (List Text) → B → Bool × List Text × B
unfolding evicted remove_all
reap_found remove me none b = (true, [], b)
reap_found remove me (some peers) b =
    (leb 1 (length peers), evicted me peers, remove_all remove (evicted me peers) b)

unfoldable pub reap_dead_peers :
    {B : Type 0}
    → (Text → B → Bool × B)
    → Text
    → List (Option JszResponse)
    → B
    → Bool × List Text × B
unfolding offline_meta_peers reap_found
reap_dead_peers remove me replies b = reap_found remove me (offline_meta_peers replies) b

unfoldable pub put_name : Text → List Text → List Text
put_name [] s = s
put_name (c ∷ t) s = put (c ∷ t) s

unfoldable pub put_names : List MetaPeer → List Text → List Text
unfolding put_name
put_names [] s = s
put_names (p ∷ ps) s = put_names ps (put_name p.name s)

-- `clusterSize`, with the fallback by gossip where the bus gives no reply.
unfoldable pub cluster_size : ℕ → Option JszResponse → ℕ
unfolding put_names
cluster_size discovered none = discovered + 1
cluster_size discovered (some r) =
    let peers = put_names r.replicas (put_name r.leader (put_name r.server [])) in
    if ltb_ℤ (pos 0) r.size
    then pos_part r.size
    else elim peers [ [] ↦ 1 | p ∷ ps ↦ suc (length ps) ]

-- `reconcileCluster`: what the two halves do, by whether this node leads and the size.
unfoldable pub reconcile_cluster : {B : Type 0} → Bool → ℕ → (B → B) → (B → B) → B → B
reconcile_cluster false size streams reap b = b
reconcile_cluster true zero streams reap b = streams b
reconcile_cluster true (suc zero) streams reap b = streams b
reconcile_cluster true (suc (suc n)) streams reap b = reap (streams b)

-- A peer that the leader of the group itself reports as offline or silent.
pub data IsReported (p : Text) : List (Option JszResponse) → Type 0 where
  by_leader :
      {rs : List (Option JszResponse)} (r : JszResponse) (peer : MetaPeer)
      → r.leader ≡ r.server
      → In peer r.replicas
      → peer.name ≡ p
      → (peer.offline ≡ true) ⊎ (leb inactivity_threshold peer.active ≡ true)
      → IsReported p (some r ∷ rs)
  further :
      {o : Option JszResponse} {rs : List (Option JszResponse)}
      → IsReported p rs
      → IsReported p (o ∷ rs)
