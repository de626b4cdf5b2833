-- ===== src/Examples/Brokers.antt =====
-- The broker of a node on a host in memory.
use asty.Common.{
  ℕ, ◌≡◌, ◌≢◌, ◌↔◌, refl, sym, ◌++◌, ◌∙◌, ap, Bool, true, false, Option, none, some, List, [], ◌∷◌,
  Text, codes, All, same, arith, value_or,
}
use asty.Common.Int.{ℤ, pos}
use asty.Common.Map.{Map, lookup, insert, lookup-insert, lookup-insert_self}
use asty.Agent.Peers.{new_nats_peers, all_peer_ips}
use asty.Broker.Conf.{BrokerConfig, is_clustered}
use asty.Broker.Files.{Host, IsHost}
use asty.Broker.Streams.{force_stream_meta_to_r1}
use asty.Broker.State.{Node, Setup}
use asty.Broker.Supervisor.{
  restart_signal, solo_signal, watching, supervise_nats, conf_of, solo_node,
}
use asty.Broker.Announce.{recorded, clustered_now, handle_quorum_lost, on_change}
use asty.Broker.Serving.{Serves, supervise_nats-Serves}
use asty.Broker.Recovery.{start, on_record, IsAlone, collapse-Reaches}
use asty.Broker.Collapse.{Edited, handle_quorum_lost_iff, force_stream_meta_to_r1-Edited}

abbrev Machine : Type 0
Machine = Map Text × Bool

abbrev conf_path : Text
conf_path = codes "nats.conf"

abbrev mode : Machine → Bool
mode b = b.1

abbrev host : Host Machine
host = record {
  read = λ p b. lookup p b.0;
  write = λ p c b. (true, (insert p c b.0, b.1));
  remove_all = λ p b. (true, b);
  glob = λ b. some [];
  meta_dirs = λ b. [];
  dial = λ ip port b. false;
  find_binary = λ b. true;
  resolve_ip = λ b. codes "10.0.0.1";
  spawn = λ b. (true, (b.0, is_clustered (value_or [] (lookup conf_path b.0))));
  hang_up = λ b. (true, b);
  halt = λ b. b;
}

host-IsHost : IsHost host conf_path mode
host-IsHost = record {
  write_own = λ p c b b' e.
      sym (ap {A = Bool × Machine} (λ r. lookup p r.1.0) e) ∙ lookup-insert_self p c b.0;
  write_other = λ p c b b' e q n.
      sym (ap {A = Bool × Machine} (λ r. lookup q r.1.0) e) ∙ rw (lookup-insert p q c b.0, n);
  write_mode = λ p c b. refl;
  hang_up_file = λ b q. refl;
  hang_up_mode = λ b b' e. sym (ap {A = Bool × Machine} (λ r. r.1.1) e);
  spawn_file = λ b q. refl;
  spawn_mode = λ b b' c e q.
      sym (ap {A = Bool × Machine} (λ r. r.1.1) e)
      ∙ ap {A = Option Text} (λ o. is_clustered (value_or [] o)) q;
}

abbrev digits : ℤ → Text
digits n = codes "6222"

abbrev quoted : Text → Text
quoted t = codes "'" ++ t ++ codes "'"

abbrev no_replicas : Text → Text
no_replicas t = codes "R=1"

abbrev checksum : Text → Text → Option Text
checksum stream content = some (stream ++ content)

abbrev setup : Setup Machine
setup = record {
  host = host;
  config = record {
    port = pos 4222;
    store_dir = codes "js";
    max_memory = [];
    max_file = [];
    cluster_name = [];
    cluster_port = pos 6222;
    accounts = [];
    system_account = [];
  };
  node_id = codes "n1";
  conf_path = conf_path;
  quote = quoted;
  decimal = digits;
  replace = no_replicas;
  hash = checksum;
}

-- A node with one peer, whose broker has no configuration file yet.
abbrev two : Node
two = record {
  peers = record { by_node = (codes "n2", codes "10.0.0.2") ∷ []; bootstrap = [] };
  in_solo = false;
  restart = true;
  solo = false;
}

abbrev bare : Machine
bare = ([], false)

abbrev served : Machine
served = ((conf_path, conf_of setup (codes "10.0.0.1") (codes "10.0.0.2" ∷ []) false) ∷ [], true)

supervise_nats-Serves_example : Serves setup mode host-IsHost (codes "10.0.0.2" ∷ []) served
unfolding supervise_nats asty.Broker.Supervisor.try_hot_reload asty.Common.same
    asty.Common.has_prefix asty.Broker.Conf.render lookup insert asty.Common.Sort.sort
    asty.Common.Map.put asty.Common.Sort.place
supervise_nats-Serves_example =
    supervise_nats-Serves setup mode host-IsHost restart_signal two (record two { restart = false })
      bare served (λ c e. ground (arith, e)) refl

-- The node that collapsed, and its host.
abbrev one : Node
one = record two { peers = new_nats_peers; in_solo = true; solo = false }

abbrev alone : Machine
alone = ((conf_path, conf_of setup (codes "10.0.0.1") [] false) ∷ [], false)

collapse-Reaches_example :
    IsAlone setup mode host-IsHost (on_change setup (codes "n2") (codes "10.0.0.2") false one) alone
unfolding asty.Broker.Recovery.IsDeparture solo_node asty.Broker.Announce.arrive_all on_change
    asty.Agent.Peers.remove_peer supervise_nats asty.Broker.Supervisor.perform_solo_transition
    asty.Common.same asty.Common.has_prefix asty.Broker.Conf.render new_nats_peers insert lookup
    asty.Common.Sort.sort
collapse-Reaches_example =
    collapse-Reaches setup mode host-IsHost (recorded (codes "n2") [] true ∷ []) two one
      (on_change setup (codes "n2") (codes "10.0.0.2") false one) served alone alone (refl, tt) refl
      (on_record (codes "n2") (codes "10.0.0.2") false one alone start)

-- A record of a peer that is handled before the node is marked brings the peer back.
late_peer :
    (solo_node setup (recorded (codes "n2") (codes "10.0.0.2") false ∷ []) two bare).peers
    ≡ two.peers
unfolding solo_node asty.Broker.Announce.arrive_all on_change asty.Common.same insert lookup
late_peer = refl

handle_quorum_lost_iff_example : ((handle_quorum_lost setup two served).solo ≡ true) ↔ (
    (clustered_now setup served ≡ true)
    × All (λ ip. host.dial ip (pos 6222) served ≡ false) (all_peer_ips two.peers))
handle_quorum_lost_iff_example = handle_quorum_lost_iff setup two served refl refl

abbrev meta_path : Text
meta_path = codes "js/s/meta.inf"

abbrev disk : Machine
disk = ((meta_path, codes "R=3") ∷ [], true)

force_stream_meta_to_r1-Edited_example :
    Edited host no_replicas checksum meta_path
      (codes "s")
      disk
      (force_stream_meta_to_r1 host no_replicas checksum meta_path (codes "s") disk)
unfolding same asty.Broker.Streams.sum_path
force_stream_meta_to_r1-Edited_example =
    force_stream_meta_to_r1-Edited host no_replicas checksum conf_path mode host-IsHost meta_path
      (codes "s") disk refl
