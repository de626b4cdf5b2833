-- ===== src/Settings/Schema.antt =====
-- asty/internal/core/config: the sections, in config.go, nats.go, gateway.go and agent.go.
-- Durations are nanoseconds. `F` stands for the floating-point numbers of the request rate.
use asty.Common.{Bool, List, Text}
use asty.Common.Int.{ℤ}
use asty.Server.Replicas.{ClusterConfig}

pub record AutoscaleConfig : Type 0 where
  pub min_copies : ℤ
  pub max_copies : ℤ
  pub target_cpu : ℤ
  pub target_memory : ℤ
  pub traffic_rps_threshold : ℤ
  pub traffic_window : ℤ
  pub cooldown_up : ℤ
  pub cooldown_down : ℤ
  pub idle_hold : ℤ
  pub eval_interval : ℤ
  pub dc_latency : Text
  pub controller_workers : ℤ

pub record NatsUser : Type 0 where
  pub user : Text
  pub password : Text

pub record NatsAccount : Type 0 where
  pub jet_stream : Bool
  pub users : List NatsUser

pub record NatsJetStreamConfig : Type 0 where
  pub store_dir : Text
  pub max_memory : Text
  pub max_file : Text

pub record NatsClusterConfig : Type 0 where
  pub name : Text
  pub port : ℤ

-- `accounts` is in the order that the loop over the map takes.
pub record NatsServerConfig : Type 0 where
  pub port : ℤ
  pub jet_stream : NatsJetStreamConfig
  pub cluster : NatsClusterConfig
  pub accounts : List (Text × NatsAccount)
  pub system_account : Text

pub record NatsConfig : Type 0 where
  pub user : Text
  pub password : Text
  pub observer_user : Text
  pub observer_password : Text
  pub app_user : Text
  pub app_password : Text
  pub seed : Text
  pub server : NatsServerConfig

pub record GatewayHttpConfig : Type 0 where
  pub read_header_timeout : ℤ
  pub read_timeout : ℤ
  pub write_timeout : ℤ
  pub idle_timeout : ℤ
  pub nats_request_timeout : ℤ
  pub nats_retry_delay : ℤ
  pub ws_connect_timeout : ℤ

pub record GatewayRateLimitConfig (F : Type 0) : Type 0 where
  pub rate : F
  pub burst : ℤ
  pub max_ws_conns : ℤ
  pub trusted_proxy : Text
  pub max_ips : ℤ

pub record GatewayConfig (F : Type 0) : Type 0 where
  pub enabled : Bool
  pub host : Text
  pub port : ℤ
  pub prefix : Text
  pub http : GatewayHttpConfig
  pub allowed_hosts : List Text
  pub rate_limit : GatewayRateLimitConfig F

pub record ResourcesConfig : Type 0 where
  pub reserved_cpu : ℤ
  pub reserved_memory : ℤ

pub record DashboardConfig : Type 0 where
  pub host : Text
  pub port : ℤ
  pub prefix : Text
  pub allowed_origins : List Text

pub record PrometheusConfig : Type 0 where
  pub host : Text
  pub port : ℤ
  pub prefix : Text

pub record AgentCapacityConfig : Type 0 where
  pub cpu_total : ℤ
  pub memory_total : ℤ
  pub disk_total : ℤ
  pub swap_total : ℤ
  pub disk_os_baseline : ℤ
  pub nats_disk_baseline : ℤ
  pub disk_type : Text

pub record AgentConfig : Type 0 where
  pub work_dir : Text
  pub service_dir : Text
  pub capacity : AgentCapacityConfig

pub record ArtifactConfig : Type 0 where
  pub arch : Text
  pub github_repo : Text

-- `Config`.
pub record Settings (F : Type 0) : Type 0 where
  pub datacenter : Text
  pub node_id : Text
  pub node_ip : Text
  pub node_host : Text
  pub token : Text
  pub log_level : Text
  pub dev_mode : Bool
  pub mock_nodes : ℤ
  pub nats : NatsConfig
  pub autoscale : AutoscaleConfig
  pub cluster : ClusterConfig
  pub resources : ResourcesConfig
  pub dashboard : DashboardConfig
  pub prometheus : PrometheusConfig
  pub agent : AgentConfig
  pub gateway : GatewayConfig F
  pub artifact : ArtifactConfig
