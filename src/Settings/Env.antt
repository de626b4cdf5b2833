-- ===== src/Settings/Env.antt =====
-- asty/internal/core/config/env.go: the environment's overrides. `environment` is `os.LookupEnv`.
use asty.Common.{Bool, Option, none, some, List, [], ◌∷◌, Text, codes, value_or}
use asty.Common.Int.{ℤ}
use asty.Netutil.Origin.{trim_space}
use asty.Gateway.Routing.{split}
use asty.Server.Replicas.{ClusterConfig}
use asty.Settings.Schema.{
  AutoscaleConfig, NatsConfig, ResourcesConfig, DashboardConfig, PrometheusConfig,
  AgentCapacityConfig, AgentConfig, ArtifactConfig, GatewayHttpConfig, GatewayRateLimitConfig,
  GatewayConfig, Settings,
}

-- The parsers of `strconv` and `time`; `none` is an error.
pub record Parsers (F : Type 0) : Type 0 where
  pub parse_bool : Text → Option Bool
  pub atoi : Text → Option ℤ
  pub parse_float : Text → Option F
  pub parse_duration : Text → Option ℤ

-- `splitCSV`, after the cut at the commas.
unfoldable pub trimmed : List Text → List Text
trimmed [] = []
trimmed (part ∷ parts) =
    let rest = trimmed parts in elim (trim_space part) [ [] ↦ rest | c ∷ s ↦ (c ∷ s) ∷ rest ]

unfoldable pub split_csv : Text → List Text
unfolding trimmed
split_csv raw = trimmed (split 44 raw)

module _ {F : Type 0} (environment : Text → Option Text) (ps : Parsers F) where
  unfoldable pub env_str : Text → Text → Text
  env_str key v = value_or v (environment key)

  unfoldable pub env_csv : Text → List Text → List Text
  unfolding split_csv
  env_csv key v = elim (environment key) [ none ↦ v | some raw ↦ split_csv raw ]

  -- `envBool`, `envInt`, `envInt64`, `envFloat` and `envDur`: an empty value counts as unset, one that
  -- does not parse is ignored.
  unfoldable pub env_with {ℓ} : {A : Type ℓ} → (Text → Option A) → Text → A → A
  env_with parse key v = elim (value_or [] (environment key)) [
    | [] ↦ v
    | c ∷ raw ↦ value_or v (parse (c ∷ raw))
  ]

  unfoldable pub apply_nats_env : NatsConfig → NatsConfig
  unfolding env_str
  apply_nats_env c = record c {
    user = env_str (codes "A_NATS_USER") c.user;
    password = env_str (codes "A_NATS_PASSWORD") c.password;
    observer_user = env_str (codes "A_NATS_OBSERVER_USER") c.observer_user;
    observer_password = env_str (codes "A_NATS_OBSERVER_PASSWORD") c.observer_password;
    app_user = env_str (codes "A_NATS_APP_USER") c.app_user;
    app_password = env_str (codes "A_NATS_APP_PASSWORD") c.app_password;
    seed = env_str (codes "A_NATS_SEED") c.seed;
  }

  unfoldable pub apply_autoscale_env : AutoscaleConfig → AutoscaleConfig
  unfolding env_str env_with
  apply_autoscale_env c = record c {
    min_copies = env_with ps.atoi (codes "A_MIN_COPIES") c.min_copies;
    max_copies = env_with ps.atoi (codes "A_MAX_COPIES") c.max_copies;
    target_cpu = env_with ps.atoi (codes "A_TARGET_CPU") c.target_cpu;
    target_memory = env_with ps.atoi (codes "A_TARGET_MEMORY") c.target_memory;
    traffic_rps_threshold =
        env_with ps.atoi (codes "A_TRAFFIC_RPS_THRESHOLD") c.traffic_rps_threshold;
    traffic_window = env_with ps.parse_duration (codes "A_TRAFFIC_WINDOW") c.traffic_window;
    cooldown_up = env_with ps.parse_duration (codes "A_COOLDOWN_UP") c.cooldown_up;
    cooldown_down = env_with ps.parse_duration (codes "A_COOLDOWN_DOWN") c.cooldown_down;
    idle_hold = env_with ps.parse_duration (codes "A_IDLE_HOLD") c.idle_hold;
    eval_interval = env_with ps.parse_duration (codes "A_EVAL_INTERVAL") c.eval_interval;
    dc_latency = env_str (codes "A_DC_LATENCY") c.dc_latency;
    controller_workers = env_with ps.atoi (codes "A_CONTROLLER_WORKERS") c.controller_workers;
  }

  unfoldable pub apply_cluster_env : ClusterConfig → ClusterConfig
  unfolding env_with
  apply_cluster_env c = record c {
    system_kv_replicas = env_with ps.atoi (codes "A_SYSTEM_KV_REPLICAS") c.system_kv_replicas;
    app_kv_replicas = env_with ps.atoi (codes "A_APP_KV_REPLICAS") c.app_kv_replicas;
  }

  unfoldable pub apply_resources_env : ResourcesConfig → ResourcesConfig
  unfolding env_with
  apply_resources_env c = record c {
    reserved_cpu = env_with ps.atoi (codes "A_RESERVED_CPU") c.reserved_cpu;
    reserved_memory = env_with ps.atoi (codes "A_RESERVED_MEMORY") c.reserved_memory;
  }

  unfoldable pub apply_dashboard_env : DashboardConfig → DashboardConfig
  unfolding env_csv env_str env_with
  apply_dashboard_env c = record c {
    host = env_str (codes "A_DASHBOARD_HOST") c.host;
    port = env_with ps.atoi (codes "A_DASHBOARD_PORT") c.port;
    prefix = env_str (codes "A_DASHBOARD_PREFIX") c.prefix;
    allowed_origins = env_csv (codes "A_DASHBOARD_ALLOWED_ORIGINS") c.allowed_origins;
  }

  unfoldable pub apply_prometheus_env : PrometheusConfig → PrometheusConfig
  unfolding env_str env_with
  apply_prometheus_env c = record c {
    host = env_str (codes "A_PROMETHEUS_HOST") c.host;
    port = env_with ps.atoi (codes "A_PROMETHEUS_PORT") c.port;
    prefix = env_str (codes "A_PROMETHEUS_PREFIX") c.prefix;
  }

  unfoldable pub apply_capacity_env : AgentCapacityConfig → AgentCapacityConfig
  unfolding env_str env_with
  apply_capacity_env c = record c {
    cpu_total = env_with ps.atoi (codes "A_CPU_TOTAL") c.cpu_total;
    memory_total = env_with ps.atoi (codes "A_MEMORY_TOTAL") c.memory_total;
    disk_total = env_with ps.atoi (codes "A_DISK_TOTAL") c.disk_total;
    swap_total = env_with ps.atoi (codes "A_SWAP_TOTAL") c.swap_total;
    disk_os_baseline = env_with ps.atoi (codes "A_DISK_OS_BASELINE") c.disk_os_baseline;
    nats_disk_baseline = env_with ps.atoi (codes "A_NATS_DISK_BASELINE") c.nats_disk_baseline;
    disk_type = env_str (codes "A_DISK_TYPE") c.disk_type;
  }

  unfoldable pub apply_agent_env : AgentConfig → AgentConfig
  unfolding apply_capacity_env env_str
  apply_agent_env c = record c {
    work_dir = env_str (codes "A_WORK_DIR") c.work_dir;
    service_dir = env_str (codes "A_SERVICE_DIR") c.service_dir;
    capacity = apply_capacity_env c.capacity;
  }

  unfoldable pub apply_artifact_env : ArtifactConfig → ArtifactConfig
  unfolding env_str
  apply_artifact_env c = record c {
    arch = env_str (codes "A_ARCH") c.arch;
    github_repo = env_str (codes "A_GITHUB_REPO") c.github_repo;
  }

  unfoldable pub apply_http_env : GatewayHttpConfig → GatewayHttpConfig
  unfolding env_with
  apply_http_env c = record c {
    read_header_timeout =
        env_with ps.parse_duration (codes "A_GATEWAY_READ_HEADER_TIMEOUT") c.read_header_timeout;
    read_timeout = env_with ps.parse_duration (codes "A_GATEWAY_READ_TIMEOUT") c.read_timeout;
    write_timeout = env_with ps.parse_duration (codes "A_GATEWAY_WRITE_TIMEOUT") c.write_timeout;
    idle_timeout = env_with ps.parse_duration (codes "A_GATEWAY_IDLE_TIMEOUT") c.idle_timeout;
    nats_request_timeout =
        env_with ps.parse_duration (codes "A_GATEWAY_NATS_REQUEST_TIMEOUT") c.nats_request_timeout;
    nats_retry_delay =
        env_with ps.parse_duration (codes "A_GATEWAY_NATS_RETRY_DELAY") c.nats_retry_delay;
    ws_connect_timeout =
        env_with ps.parse_duration (codes "A_GATEWAY_WS_CONNECT_TIMEOUT") c.ws_connect_timeout;
  }

  unfoldable pub apply_rate_limit_env : GatewayRateLimitConfig F → GatewayRateLimitConfig F
  unfolding env_str env_with
  apply_rate_limit_env c = record c {
    rate = env_with ps.parse_float (codes "A_GATEWAY_RATE_LIMIT") c.rate;
    burst = env_with ps.atoi (codes "A_GATEWAY_RATE_BURST") c.burst;
    max_ws_conns = env_with ps.atoi (codes "A_GATEWAY_MAX_WS_CONNS") c.max_ws_conns;
    trusted_proxy = env_str (codes "A_GATEWAY_TRUSTED_PROXY") c.trusted_proxy;
    max_ips = env_with ps.atoi (codes "A_GATEWAY_RATE_LIMIT_MAX_IPS") c.max_ips;
  }

  unfoldable pub apply_gateway_env : GatewayConfig F → GatewayConfig F
  unfolding apply_http_env apply_rate_limit_env env_csv env_str env_with
  apply_gateway_env c = record c {
    enabled = env_with ps.parse_bool (codes "A_GATEWAY_ENABLED") c.enabled;
    host = env_str (codes "A_GATEWAY_HOST") c.host;
    port = env_with ps.atoi (codes "A_GATEWAY_PORT") c.port;
    prefix = env_str (codes "A_GATEWAY_PREFIX") c.prefix;
    http = apply_http_env c.http;
    rate_limit = apply_rate_limit_env c.rate_limit;
    allowed_hosts = env_csv (codes "A_ALLOWED_HOSTS") c.allowed_hosts;
  }

  unfoldable pub apply_env_overrides : Settings F → Settings F
  unfolding apply_agent_env apply_artifact_env apply_autoscale_env apply_cluster_env
      apply_dashboard_env apply_gateway_env apply_nats_env apply_prometheus_env apply_resources_env
      env_str env_with
  apply_env_overrides c = record c {
    datacenter = env_str (codes "A_DATACENTER") c.datacenter;
    node_id = env_str (codes "A_NODE_ID") c.node_id;
    node_ip = env_str (codes "A_NODE_IP") c.node_ip;
    node_host = env_str (codes "A_NODE_HOST") c.node_host;
    token = env_str (codes "A_TOKEN") c.token;
    log_level = env_str (codes "A_LOG_LEVEL") c.log_level;
    dev_mode = env_with ps.parse_bool (codes "A_DEV_MODE") c.dev_mode;
    mock_nodes = env_with ps.atoi (codes "A_MOCK_NODES") c.mock_nodes;
    nats = apply_nats_env c.nats;
    autoscale = apply_autoscale_env c.autoscale;
    cluster = apply_cluster_env c.cluster;
    resources = apply_resources_env c.resources;
    dashboard = apply_dashboard_env c.dashboard;
    prometheus = apply_prometheus_env c.prometheus;
    agent = apply_agent_env c.agent;
    artifact = apply_artifact_env c.artifact;
    gateway = apply_gateway_env c.gateway;
  }
