-- ===== src/Agent/Peers.antt =====
-- asty/internal/agent/natspeers.go: the addresses of the other nodes, from the cluster's records and
-- from hints that come before a node has a record. A set is the list of its keys.
use asty.Common.{
  ℕ, Bool, true, false, ◌||◌, none, some, List, [], ◌∷◌, Text, same, before, if◌then◌else◌, length,
}
use asty.Common.Map.{Map, lookup, insert, erase, has, put, del}
use asty.Common.Sort.{sort}
use asty.Netutil.Origin.{trim_space}
use asty.Gateway.Routing.{split}

pub record NatsPeers : Type 0 where
  pub by_node : Map Text
  pub bootstrap : List Text

unfoldable pub new_nats_peers : NatsPeers
new_nats_peers = record { by_node = []; bootstrap = [] }

unfoldable pub values_of : Map Text → List Text
values_of [] = []
values_of ((k, ip) ∷ m) = ip ∷ values_of m

unfoldable pub put_all : List Text → List Text → List Text
put_all [] out = out
put_all (ip ∷ ips) out = put_all ips (put ip out)

-- `allPeerIPs`.
unfoldable pub all_peer_ips : NatsPeers → List Text
unfolding values_of put_all
all_peer_ips p = put_all p.bootstrap (put_all (values_of p.by_node) [])

-- `snapshot`.
unfoldable pub peer_snapshot : NatsPeers → List Text
unfolding all_peer_ips
peer_snapshot p = sort before (all_peer_ips p)

unfoldable pub count_by_node : NatsPeers → ℕ
count_by_node p = length p.by_node

unfoldable pub has_bootstrap : NatsPeers → Bool
has_bootstrap p = elim p.bootstrap [ [] ↦ false | ip ∷ ips ↦ true ]

unfoldable pub drop_bootstrap : Text → NatsPeers → Bool × NatsPeers
drop_bootstrap ip p =
    if has ip p.bootstrap then (true, record p { bootstrap = del ip p.bootstrap }) else (false, p)

unfoldable pub reset_peers : NatsPeers → NatsPeers
unfolding new_nats_peers
reset_peers p = new_nats_peers

-- The changes answer whether they changed something.
unfoldable pub upsert : Text → Text → NatsPeers → Bool × NatsPeers
upsert node ip p = elim (lookup node p.by_node) [
  | none ↦ (true, record p { by_node = insert node ip p.by_node })
  | some prev ↦
      if same prev ip then (false, p) else (true, record p { by_node = insert node ip p.by_node })
]

unfoldable pub remove_peer : Text → NatsPeers → Bool × NatsPeers
remove_peer node p = elim (lookup node p.by_node) [
  | none ↦ (false, p)
  | some ip ↦ (true, record { by_node = erase node p.by_node; bootstrap = del ip p.bootstrap })
]

unfoldable pub add_bootstrap : Text → Text → NatsPeers → Bool × NatsPeers
unfolding values_of
add_bootstrap [] self p = (false, p)
add_bootstrap (c ∷ ip) self p =
    if same (c ∷ ip) self || (has (c ∷ ip) p.bootstrap || has (c ∷ ip) (values_of p.by_node))
    then (false, p)
    else (true, record p { bootstrap = put (c ∷ ip) p.bootstrap })

-- `seedPeers`.
unfoldable pub seeded : Text → List Text → List Text
seeded self [] = []
seeded self (raw ∷ raws) =
    let rest = seeded self raws in
    elim (trim_space raw) [ [] ↦ rest | c ∷ s ↦ if same (c ∷ s) self then rest else (c ∷ s) ∷ rest ]

unfoldable pub seed_peers : Text → Text → List Text
unfolding seeded
seed_peers [] self = []
seed_peers (c ∷ seed) self = seeded self (split 44 (c ∷ seed))

-- The callback of `watchNATSPeers`: the event has an ID, an address and whether the node is deleted;
-- `solo` is the recovery mode. It answers whether the broker is told to restart.
unfoldable pub on_peer : Text → Bool → Text → Text → Bool → NatsPeers → Bool × NatsPeers
unfolding upsert remove_peer
on_peer me solo [] ip gone p = (false, p)
on_peer me solo (c ∷ id) [] gone p = if same (c ∷ id) me then (false, p) else remove_peer (c ∷ id) p
on_peer me solo (c ∷ id) (d ∷ ip) gone p =
    if same (c ∷ id) me
    then (false, p)
    else if gone
    then remove_peer (c ∷ id) p
    else if solo
    then (false, p)
    else upsert (c ∷ id) (d ∷ ip) p
