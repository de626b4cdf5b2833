-- ===== src/Broker/Recovery.antt =====
-- A node that collapsed to a single node: its steps until a peer is announced.
use asty.Common.{
  ◌≡◌, ◌≢◌, refl, sym, ◌∙◌, ap, subst, Bool, true, false, Option, none, some, List, [], ◌∷◌, Text,
  arith, All, same, if◌then◌else◌,
}
use asty.Agent.Peers.{NatsPeers, new_nats_peers, peer_snapshot, on_peer}
use asty.Broker.Files.{IsHost}
use asty.Broker.State.{Node, Setup}
use asty.Broker.Supervisor.{
  Turn, stop_signal, restart_signal, solo_signal, child_exit, Fate, watching, solo_node,
  supervise_nats, solo_disk,
}
use asty.Broker.Announce.{
  Arrival, recorded, told, arrive, arrive_all, on_change, handle_quorum_lost,
}
use asty.Broker.Serving.{Serves, Serves-Agrees, watched_iff, watched-Serves, supervise_nats-Serves}

-- A record that a node is gone.
unfoldable pub IsDeparture : Arrival → Type 0
IsDeparture (recorded id ip gone) = gone ≡ true
IsDeparture (told ip) = ⊥

-- A turn during whose work on the disk, if it is a collapse, nothing but departures is handled.
unfoldable pub IsQuiet : Turn → Type 0
IsQuiet (solo_signal late) = All IsDeparture late
IsQuiet _ = Unit

module _ {B : Type 0} (s : Setup B) (mode : B → Bool) (law : IsHost s.host s.conf_path mode) where
  -- The steps of a node and its host other than an announcement: a record of a node in the cluster, a
  -- lost quorum, a turn of the supervisor that goes on and is quiet, and what else happens on the host, which
  -- leaves the configuration file and the broker alone.
  pub data Reaches (n : Node) (b : B) : Node → B → Type 0 where
    start : Reaches n b n b
    on_record :
        (id ip : Text) (gone : Bool) (n₁ : Node) (b₁ : B)
        → Reaches n b n₁ b₁
        → Reaches n b (on_change s id ip gone n₁) b₁
    on_lost : (n₁ : Node) (b₁ : B) → Reaches n b n₁ b₁ → Reaches n b (handle_quorum_lost s n₁ b₁) b₁
    on_turn :
        (t : Turn) (n₁ n₂ : Node) (b₁ b₂ : B)
        → IsQuiet t
        → Reaches n b n₁ b₁
        → supervise_nats s t n₁ b₁ ≡ watching n₂ b₂
        → Reaches n b n₂ b₂
    on_host :
        (n₁ : Node) (b₁ b₂ : B)
        → Reaches n b n₁ b₁
        → s.host.read s.conf_path b₂ ≡ s.host.read s.conf_path b₁
        → mode b₂ ≡ mode b₁
        → Reaches n b n₁ b₂

  -- A node in recovery that knows no peer, with a broker of its own.
  pub record IsAlone (n : Node) (b : B) : Type 0 where
    pub in_solo : n.in_solo ≡ true
    pub peers : n.peers ≡ new_nats_peers
    pub serves : Serves s mode law [] b

  -- A departure tells a node without peers nothing, in recovery or not.
  on_peer-gone :
      (solo : Bool) (id ip : Text)
      → on_peer s.node_id solo id ip true new_nats_peers ≡ (false, new_nats_peers)
  unfolding on_peer new_nats_peers asty.Agent.Peers.remove_peer asty.Common.Map.lookup
  on_peer-gone solo [] ip = refl
  on_peer-gone solo (c ∷ id) [] = ground arith
  on_peer-gone solo (c ∷ id) (d ∷ ip) = ground arith

  arrive-departure :
      (e : Arrival) (n : Node) (b : B)
      → IsDeparture e
      → n.peers ≡ new_nats_peers
      → (arrive s e n b).peers ≡ new_nats_peers
  unfolding IsDeparture arrive on_change asty.Broker.Announce.peers_changed
  arrive-departure (recorded id ip gone) n b d h =
      let e : on_peer s.node_id n.in_solo id ip gone n.peers ≡ (false, new_nats_peers) =
        ap (λ g. on_peer s.node_id n.in_solo id ip g n.peers) d
        ∙ ap (λ p. on_peer s.node_id n.in_solo id ip true p) h
        ∙ on_peer-gone n.in_solo id ip in
      ground (arith, e)
  arrive-departure (told ip) n b d h = absurd d

  arrive_all-departures :
      (es : List Arrival) (n : Node) (b : B)
      → All IsDeparture es
      → n.peers ≡ new_nats_peers
      → (arrive_all s es n b).peers ≡ new_nats_peers
  unfolding arrive_all
  arrive_all-departures [] n b a h = h
  arrive_all-departures (e ∷ es) n b a h =
      arrive_all-departures es (arrive s e n b) b a.1 (arrive-departure e n b a.0 h)

  solo_node-alone :
      (late : List Arrival) (n : Node) (b : B)
      → All IsDeparture late
      → ((solo_node s late n b).in_solo ≡ true) × ((solo_node s late n b).peers ≡ new_nats_peers)
  unfolding solo_node asty.Agent.Peers.reset_peers
  solo_node-alone late n b a = (refl, arrive_all-departures late _ b a refl)

  on_peer-solo :
      (id ip : Text) (gone : Bool)
      → on_peer s.node_id true id ip gone new_nats_peers ≡ (false, new_nats_peers)
  unfolding on_peer new_nats_peers asty.Agent.Peers.remove_peer asty.Common.Map.lookup
  on_peer-solo [] ip gone = refl
  on_peer-solo (c ∷ id) [] gone = ground arith
  on_peer-solo (c ∷ id) (d ∷ ip) gone = ground arith

  on_change-IsAlone :
      (id ip : Text) (gone : Bool) (n : Node) (b : B)
      → IsAlone n b
      → IsAlone (on_change s id ip gone n) b
  unfolding on_change asty.Broker.Announce.peers_changed
  on_change-IsAlone id ip gone n b a =
      let e : on_peer s.node_id n.in_solo id ip gone n.peers ≡ (false, new_nats_peers) =
        ap (λ i. on_peer s.node_id i id ip gone n.peers) a.in_solo
        ∙ ap (λ p. on_peer s.node_id true id ip gone p) a.peers
        ∙ on_peer-solo id ip gone in
      record {
        in_solo = ground (arith, e, a.in_solo);
        peers = ground (arith, e, a.peers);
        serves = a.serves;
      }

  on_lost-IsAlone : (n : Node) (b : B) → IsAlone n b → IsAlone (handle_quorum_lost s n b) b
  unfolding handle_quorum_lost asty.Broker.State.signal_nats_solo
  on_lost-IsAlone n b a = record {
    in_solo = ground (arith, a.in_solo);
    peers = ground (arith, a.peers);
    serves = a.serves;
  }

  turn-peers :
      (t : Turn) (n n' : Node) (b b' : B)
      → IsQuiet t
      → n.in_solo ≡ true
      → n.peers ≡ new_nats_peers
      → supervise_nats s t n b ≡ watching n' b'
      → (n'.in_solo ≡ true) × (n'.peers ≡ new_nats_peers)
  unfolding IsQuiet supervise_nats asty.Broker.Supervisor.restarted asty.Broker.Supervisor.watched
      asty.Broker.Supervisor.perform_solo_transition asty.Agent.Peers.reset_peers
  turn-peers stop_signal n n' b b' q i e p = ground (arith, p)
  turn-peers restart_signal n n' b b' q i e p = (ground (arith, p, i), ground (arith, p, e))
  turn-peers (solo_signal late) n n' b b' q i e p =
      let k = solo_node-alone late (record n { solo = false }) (solo_disk s (s.host.halt b)) q in
      (ground (arith, p, k), ground (arith, p, k))
  turn-peers child_exit n n' b b' q i e p = ground (arith, p)

  on_turn-IsAlone :
      (t : Turn) (n n' : Node) (b b' : B)
      → IsQuiet t
      → IsAlone n b
      → supervise_nats s t n b ≡ watching n' b'
      → IsAlone n' b'
  unfolding new_nats_peers peer_snapshot asty.Agent.Peers.all_peer_ips asty.Common.Sort.sort
  on_turn-IsAlone t n n' b b' q a p =
      let k = turn-peers t n n' b b' q a.in_solo a.peers p in
      record {
        in_solo = k.0;
        peers = k.1;
        serves =
            subst (λ ps. Serves s mode law (peer_snapshot ps) b') k.1
              (supervise_nats-Serves s mode law t n n' b b' (Serves-Agrees s mode law [] b a.serves)
                p);
      }

  on_host-IsAlone :
      (n : Node) (b b' : B)
      → IsAlone n b
      → s.host.read s.conf_path b' ≡ s.host.read s.conf_path b
      → mode b' ≡ mode b
      → IsAlone n b'
  on_host-IsAlone n b b' a r m = record {
    in_solo = a.in_solo;
    peers = a.peers;
    serves = record {
      ip = a.serves.ip;
      keep = a.serves.keep;
      conf = r ∙ a.serves.conf;
      in_mode = m ∙ a.serves.in_mode;
    };
  }

  Reaches-IsAlone :
      (n : Node) (b : B) → IsAlone n b → (n' : Node) (b' : B) → Reaches n b n' b' → IsAlone n' b'
  Reaches-IsAlone n b a _ _ start = a
  Reaches-IsAlone n b a _ _ (on_record id ip gone n₁ b₁ r) =
      on_change-IsAlone id ip gone n₁ b₁ (Reaches-IsAlone n b a n₁ b₁ r)
  Reaches-IsAlone n b a _ _ (on_lost n₁ b₁ r) =
      on_lost-IsAlone n₁ b₁ (Reaches-IsAlone n b a n₁ b₁ r)
  Reaches-IsAlone n b a _ _ (on_turn t n₁ n₂ b₁ b₂ q r p) =
      on_turn-IsAlone t n₁ n₂ b₁ b₂ q (Reaches-IsAlone n b a n₁ b₁ r) p
  Reaches-IsAlone n b a _ _ (on_host n₁ b₁ b₂ r e m) =
      on_host-IsAlone n₁ b₁ b₂ (Reaches-IsAlone n b a n₁ b₁ r) e m

  collapse-IsAlone :
      (late : List Arrival) (n n' : Node) (b b' : B)
      → All IsDeparture late
      → supervise_nats s (solo_signal late) n b ≡ watching n' b'
      → IsAlone n' b'
  unfolding supervise_nats asty.Broker.Supervisor.perform_solo_transition new_nats_peers
      peer_snapshot asty.Agent.Peers.all_peer_ips asty.Common.Sort.sort
  collapse-IsAlone late n n' b b' q p =
      let n₁ = solo_node s late (record n { solo = false }) (solo_disk s (s.host.halt b)) in
      let k = watched_iff s mode law n₁ n' _ b' p in
      let a = solo_node-alone late (record n { solo = false }) (solo_disk s (s.host.halt b)) q in
      let e : n'.peers ≡ new_nats_peers = sym (ap (λ m. m.peers) k.1) ∙ a.1 in
      record {
        in_solo = sym (ap (λ m. m.in_solo) k.1) ∙ a.0;
        peers = e;
        serves =
            subst (λ ps. Serves s mode law (peer_snapshot ps) b') e
              (watched-Serves s mode law n₁ n' _ b' p);
      }

  -- After a turn of the supervisor that collapsed the node to a single one, and after all further steps
  -- that are no announcement, the node is in recovery, knows no peer, and its broker runs the
  -- configuration without peers: records of other nodes do not bring it back into a cluster. While a
  -- collapse works on the disk, before it marks the node as being in recovery, nothing but departures
  -- of nodes is handled.
  pub collapse-Reaches :
      (late : List Arrival) (n n₁ n' : Node) (b b₁ b' : B)
      → All IsDeparture late
      → supervise_nats s (solo_signal late) n b ≡ watching n₁ b₁
      → Reaches n₁ b₁ n' b'
      → IsAlone n' b'
  collapse-Reaches late n n₁ n' b b₁ b' q p r =
      Reaches-IsAlone n₁ b₁ (collapse-IsAlone late n n₁ b b₁ q p) n' b' r
