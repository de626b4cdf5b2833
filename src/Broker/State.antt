-- ===== src/Broker/State.antt =====
-- asty/internal/agent: the broker's part of the agent. Its state is its peers, the recovery mode, and
-- the two channels of one place that wake the supervisor.
use asty.Common.{Bool, true, Option, Text}
use asty.Common.Int.{ℤ}
use asty.Agent.Peers.{NatsPeers}
use asty.Broker.Conf.{BrokerConfig}
use asty.Broker.Files.{Host}

pub record Node : Type 0 where
  pub peers : NatsPeers
  pub in_solo : Bool
  pub restart : Bool
  pub solo : Bool

-- `signalNATSRestart` and `signalNATSSolo`: a send that is dropped where the channel is full.
unfoldable pub signal_nats_restart : Node → Node
signal_nats_restart n = record n { restart = true }

unfoldable pub signal_nats_solo : Node → Node
signal_nats_solo n = record n { solo = true }

-- What the agent has from its configuration, with the standard functions that it calls.
pub record Setup (B : Type 0) : Type 0 where
  pub host : Host B
  pub config : BrokerConfig
  pub node_id : Text
  pub conf_path : Text
  pub quote : Text → Text
  pub decimal : ℤ → Text
  pub replace : Text → Text
  pub hash : Text → Text → Option Text
