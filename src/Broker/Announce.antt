-- ===== src/Broker/Announce.antt =====
-- asty/internal/agent: the events that change a node's peers and wake its supervisor. These are the
-- announcements of commands.go, the watch of natspeers.go and the lost quorum of natssolo.go.
use asty.Common.{
  Bool, true, false, not, ◌||◌, Option, none, some, List, [], ◌∷◌, Text, codes, if◌then◌else◌, leb,
}
use asty.Common.Int.{pos, eqb_ℤ}
use asty.Agent.Peers.{NatsPeers, all_peer_ips, count_by_node, has_bootstrap, add_bootstrap, on_peer}
use asty.Broker.Conf.{is_clustered}
use asty.Broker.State.{Node, Setup, signal_nats_restart, signal_nats_solo}

-- `MarshalResponse`: a success with its message, or an error.
pub data Response : Type 0 where
  accepted : Text → Response
  rejected : Text → Response

-- What another goroutine takes up: a change of a record, with the node, its address and whether it is
-- gone, or the payload of an announcement.
pub data Arrival : Type 0 where
  recorded : Text → Text → Bool → Arrival
  told : Option Text → Arrival

module _ {B : Type 0} (s : Setup B) where
  -- The end of `applyPeerAnnounce`.
  unfoldable pub announced : Node → Bool × NatsPeers → Bool × Node
  unfolding signal_nats_restart
  announced n (false, p) = (false, n)
  announced n (true, p) = (true, signal_nats_restart (record n { peers = p; in_solo = false }))

  unfoldable pub apply_peer_announce : Text → Node → B → Bool × Node
  unfolding announced add_bootstrap
  apply_peer_announce ip n b = announced n (add_bootstrap ip (s.host.resolve_ip b) n.peers)

  -- `handleAddPeerCommand` on a payload that parses to an address or not: the response, the addresses
  -- that are broadcast, and the node.
  unfoldable pub handle_add_peer : Option Text → Node → B → Response × List Text × Node
  unfolding apply_peer_announce
  handle_add_peer none n b = (rejected (codes "parse"), [], n)
  handle_add_peer (some []) n b = (rejected (codes "add-peer: empty ip"), [], n)
  handle_add_peer (some (c ∷ ip)) n b =
      let (is_new, n₁) = apply_peer_announce (c ∷ ip) n b in
      (accepted (codes "peer registered"), (if is_new then (c ∷ ip) ∷ [] else []), n₁)

  -- The callback of `subscribePeerAnnounce`.
  unfoldable pub on_peer_announce : Option Text → Node → B → Node
  unfolding apply_peer_announce
  on_peer_announce none n b = n
  on_peer_announce (some []) n b = n
  on_peer_announce (some (c ∷ ip)) n b = (apply_peer_announce (c ∷ ip) n b).1

  unfoldable pub peers_changed : Node → Bool × NatsPeers → Node
  unfolding signal_nats_restart
  peers_changed n (false, p) = record n { peers = p }
  peers_changed n (true, p) = signal_nats_restart (record n { peers = p })

  -- The callback of `watchNATSPeers`.
  unfoldable pub on_change : Text → Text → Bool → Node → Node
  unfolding peers_changed on_peer
  on_change id ip gone n = peers_changed n (on_peer s.node_id n.in_solo id ip gone n.peers)

  -- An event of another goroutine: a record of the watch, or an announcement.
  unfoldable pub arrive : Arrival → Node → B → Node
  unfolding on_change on_peer_announce
  arrive (recorded id ip gone) n b = on_change id ip gone n
  arrive (told ip) n b = on_peer_announce ip n b

  unfoldable pub arrive_all : List Arrival → Node → B → Node
  unfolding arrive
  arrive_all [] n b = n
  arrive_all (e ∷ es) n b = arrive_all es (arrive e n b) b

  unfoldable pub clustered_now : B → Bool
  unfolding is_clustered
  clustered_now b = elim (s.host.read s.conf_path b) [
    | none ↦ false
    | some conf ↦ is_clustered conf
  ]

  unfoldable pub answers : List Text → B → Bool
  answers [] b = false
  answers (ip ∷ ips) b =
      let rest = answers ips b in if s.host.dial ip s.config.cluster_port b then true else rest

  unfoldable pub has_any_reachable_peer : NatsPeers → B → Bool
  unfolding answers count_by_node has_bootstrap all_peer_ips
  has_any_reachable_peer p b =
      let known = answers (all_peer_ips p) b in
      if eqb_ℤ s.config.cluster_port (pos 0)
      then not (leb (count_by_node p) 0) || has_bootstrap p
      else known

  unfoldable pub handle_quorum_lost : Node → B → Node
  unfolding clustered_now has_any_reachable_peer signal_nats_solo
  handle_quorum_lost n b =
      if not (clustered_now b)
      then n
      else if has_any_reachable_peer n.peers b
      then n
      else signal_nats_solo n
