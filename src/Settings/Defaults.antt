-- ===== src/Settings/Defaults.antt =====
-- asty/internal/core/config: `defaults`, `natsDefaults` and `gatewayDefaults`. `hundred` is the
-- floating-point number 100.
use asty.Common.{◌*◌, ◌^◌, false, true, [], codes}
use asty.Common.Int.{pos, negsuc}
use asty.Server.Replicas.{ClusterConfig}
use asty.Settings.Schema.{AutoscaleConfig, NatsConfig, GatewayConfig, Settings}

abbrev pub autoscale_defaults : AutoscaleConfig
autoscale_defaults = record {
  min_copies = pos 3;
  max_copies = pos 0;
  target_cpu = pos 75;
  target_memory = pos 75;
  traffic_rps_threshold = pos 5;
  traffic_window = pos (60 * 10 ^ 9);
  cooldown_up = pos (30 * 10 ^ 9);
  cooldown_down = pos (300 * 10 ^ 9);
  idle_hold = pos (300 * 10 ^ 9);
  eval_interval = pos (10 * 10 ^ 9);
  dc_latency = [];
  controller_workers = pos 2;
}

abbrev pub cluster_defaults : ClusterConfig
cluster_defaults = record { system_kv_replicas = pos 5; app_kv_replicas = pos 3 }

abbrev pub nats_defaults : NatsConfig
nats_defaults = record {
  user = [];
  password = [];
  observer_user = [];
  observer_password = [];
  app_user = [];
  app_password = [];
  seed = [];
  server = record {
    port = pos 4222;
    jet_stream = record {
      store_dir = codes "/var/lib/asty/jetstream";
      max_memory = codes "256M";
      max_file = codes "10G";
    };
    cluster = record { name = codes "asty"; port = pos 6222 };
    accounts = [];
    system_account = [];
  };
}

module _ {F : Type 0} (hundred : F) where
  abbrev pub gateway_defaults : GatewayConfig F
  gateway_defaults = record {
    enabled = true;
    host = codes "0.0.0.0";
    port = pos 80;
    prefix = codes "/api/v1";
    http = record {
      read_header_timeout = pos (5 * 10 ^ 9);
      read_timeout = pos (15 * 10 ^ 9);
      write_timeout = pos (15 * 10 ^ 9);
      idle_timeout = pos (60 * 10 ^ 9);
      nats_request_timeout = pos (5 * 10 ^ 9);
      nats_retry_delay = pos (100 * 10 ^ 6);
      ws_connect_timeout = pos (2 * 10 ^ 9);
    };
    allowed_hosts = [];
    rate_limit = record {
      rate = hundred;
      burst = pos 200;
      max_ws_conns = pos 1000;
      trusted_proxy = [];
      max_ips = pos 100000;
    };
  }

  abbrev pub defaults : Settings F
  defaults = record {
    datacenter = codes "dc1";
    node_id = [];
    node_ip = [];
    node_host = [];
    token = [];
    log_level = codes "info";
    dev_mode = false;
    mock_nodes = pos 0;
    nats = nats_defaults;
    autoscale = autoscale_defaults;
    cluster = cluster_defaults;
    resources = record { reserved_cpu = pos 100; reserved_memory = pos 250 };
    dashboard = record {
      host = codes "127.0.0.1";
      port = pos 7060;
      prefix = codes "/dashboard/v1";
      allowed_origins = [];
    };
    prometheus = record { host = codes "127.0.0.1"; port = pos 7060; prefix = codes "/metrics" };
    agent = record {
      work_dir = codes "/var/lib/asty";
      service_dir = codes "/etc/asty/services";
      capacity = record {
        cpu_total = pos 0;
        memory_total = pos 0;
        disk_total = pos 0;
        swap_total = pos 0;
        disk_os_baseline = negsuc 0;
        nats_disk_baseline = negsuc 0;
        disk_type = [];
      };
    };
    gateway = gateway_defaults;
    artifact = record { arch = []; github_repo = [] };
  }
