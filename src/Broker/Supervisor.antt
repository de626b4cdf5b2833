-- ===== src/Broker/Supervisor.antt =====
-- asty/internal/agent: natssup.go, natswatch.go and the transition of natssolo.go.
use asty.Common.{
  Bool, true, false, not, ◌&&◌, Option, none, some, List, [], Text, same, if◌then◌else◌,
}
use asty.Agent.Peers.{peer_snapshot, reset_peers}
use asty.Broker.Conf.{render, is_clustered}
use asty.Broker.State.{Node, Setup}
use asty.Broker.Announce.{Arrival, arrive_all}
use asty.Broker.Streams.{force_streams_to_r1, drop_all_raft_state}

-- One case of the supervisor's `select`. With a collapse go the events that the agent's other
-- goroutines handle while it works on the disk.
pub data Turn : Type 0 where
  stop_signal restart_signal child_exit : Turn
  solo_signal : List Arrival → Turn

-- What a turn comes to: the supervisor goes on, has ended, or ends the agent.
pub data Fate (B : Type 0) : Type 0 where
  watching : Node → B → Fate B
  ended : B → Fate B
  fatal : B → Fate B

module _ {B : Type 0} (s : Setup B) where
  unfoldable pub conf_of : Text → List Text → Bool → Text
  unfolding render
  conf_of ip peers keep = render s.quote s.decimal (record {
    config = s.config;
    node_id = s.node_id;
    node_ip = ip;
    peers = peers;
    keep_cluster_block = keep;
  })

  unfoldable pub render_nats_conf : Node → Text → Text
  unfolding conf_of peer_snapshot
  render_nats_conf n ip = conf_of ip (peer_snapshot n.peers) false

  unfoldable pub boot_with : Bool × B → Bool × B
  boot_with (false, b) = (false, b)
  boot_with (true, b) = s.host.spawn b

  -- `bootstrapNATS`.
  unfoldable pub bootstrap_nats : Node → B → Bool × B
  unfolding boot_with render_nats_conf
  bootstrap_nats n b =
      let ip = s.host.resolve_ip b in
      let booted = boot_with (s.host.write s.conf_path (render_nats_conf n ip) b) in
      if not (s.host.find_binary b) then (false, b) else if same ip [] then (false, b) else booted

  unfoldable pub hot_reload_with : Bool × B → Bool × B
  hot_reload_with (false, b) = (false, b)
  hot_reload_with (true, b) = s.host.hang_up b

  unfoldable pub reload_from : Text → Option Text → B → Bool × B
  unfolding hot_reload_with is_clustered
  reload_from new none b = (false, b)
  reload_from new (some old) b =
      let written = hot_reload_with (s.host.write s.conf_path new b) in
      if not (is_clustered old && is_clustered new)
      then (false, b)
      else if same old new
      then (true, b)
      else written

  -- `tryHotReloadNATS`.
  unfoldable pub try_hot_reload : Node → B → Bool × B
  unfolding reload_from conf_of peer_snapshot
  try_hot_reload n b =
      let ip = s.host.resolve_ip b in
      let reloaded =
        reload_from (conf_of ip (peer_snapshot n.peers) true) (s.host.read s.conf_path b) b in
      if same ip [] then (false, b) else reloaded

  -- The node of `performSoloTransition`: the peers are dropped, what arrives during the work on the disk
  -- is handled, and only then the node is marked as being in recovery.
  unfoldable pub solo_node : List Arrival → Node → B → Node
  unfolding reset_peers arrive_all
  solo_node late n b = record (arrive_all s late (record n { peers = reset_peers n.peers }) b) {
    in_solo = true;
  }

  unfoldable pub solo_disk : B → B
  unfolding force_streams_to_r1 drop_all_raft_state
  solo_disk b =
      drop_all_raft_state s.host s.replace s.hash (force_streams_to_r1 s.host s.replace s.hash b)

  unfoldable pub perform_solo_transition : List Arrival → Node → B → Bool × Node × B
  unfolding solo_node bootstrap_nats solo_disk
  perform_solo_transition late n b =
      let n₁ = solo_node late n (solo_disk b) in
      let (ok, b₁) = bootstrap_nats n₁ (solo_disk b) in (ok, n₁, b₁)

  unfoldable pub watched : Node → Bool × B → Fate B
  watched n (true, b) = watching n b
  watched n (false, b) = fatal b

  unfoldable pub restarted : Node → Bool × B → Fate B
  unfolding watched bootstrap_nats
  restarted n (true, b) = watching n b
  restarted n (false, b) = watched n (bootstrap_nats n (s.host.halt b))

  -- `superviseNATS`. A signal is taken off its channel.
  unfoldable pub supervise_nats : Turn → Node → B → Fate B
  unfolding restarted try_hot_reload watched perform_solo_transition
  supervise_nats stop_signal n b = ended (s.host.halt b)
  supervise_nats restart_signal n b =
      let n₁ = record n { restart = false } in restarted n₁ (try_hot_reload n₁ b)
  supervise_nats (solo_signal late) n b =
      let r = perform_solo_transition late (record n { solo = false }) (s.host.halt b) in
      watched r.1 (r.0, r.2)
  supervise_nats child_exit n b = fatal b
