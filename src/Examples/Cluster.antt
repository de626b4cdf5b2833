-- ===== src/Examples/Cluster.antt =====
-- A small cluster: two ready nodes in two datacenters and one that is down, a copy on the first node
-- and a copy on a node that has left.
use asty.Common.{ℕ, true, none, [], ◌∷◌, ◌++◌, Text, codes}
use asty.Common.Int.{pos, negsuc}
use asty.Types.Allocation.{AllocationStatus, ServiceAllocation}
use asty.Types.Node.{NodeInfo, ready}
use asty.Types.Service.{ServiceDefinition, ServiceType, system, service}
use asty.Scheduler.Helpers.{Config}
use asty.Examples.Bucket.{Bucket}

abbrev pub cfg : Config
cfg = record {
  min_copies = pos 2;
  max_copies = pos 3;
  reserved_cpu = pos 10;
  reserved_memory = pos 10;
  target_cpu = 50;
  target_memory = 50;
  cooldown_up = 1000000000;
  cooldown_down = 5000000000;
  idle_hold = 10;
}

abbrev pub service_of : ServiceType → ServiceDefinition
service_of t = record {
  name = codes "api";
  type = t;
  kill_timeout = codes "9s";
  resources = record { cpu = pos 20; memory = pos 20 };
  health = record { interval = []; timeout = []; parsed_interval = pos 0; parsed_timeout = pos 0 };
  update = record {
    max_parallel = pos 0;
    canary = pos 0;
    canary_retries = negsuc 2;
    auto_revert = true;
  };
  restart = record { attempts = pos 0; delay = []; parsed_delay = pos 0 };
  parsed_kill_timeout = pos 0;
}

abbrev pub api : ServiceDefinition
api = service_of service

abbrev pub daemon : ServiceDefinition
daemon = service_of system

abbrev pub copy_on : Text → AllocationStatus → ServiceAllocation
copy_on node st = record {
  id = codes "id";
  service_name = codes "api";
  node_id = node;
  status = st;
  version = [];
  pid = 7;
  cpu_usage = 10;
  memory_usage = 10;
  restarts = 0;
  consecutive_failures = 0;
  created_at = none;
  updated_at = none;
}

abbrev pub node_in : Text → Text → NodeInfo
node_in id dc = record {
  id = id;
  datacenter = dc;
  status = ready;
  last_seen = 0;
  cpu_available = pos 100;
  memory_available = pos 100;
}

abbrev pub north : NodeInfo
north = node_in (codes "n1") (codes "eu")

abbrev pub south : NodeInfo
south = node_in (codes "n2") (codes "us")

abbrev pub east : NodeInfo
east = node_in (codes "n3") (codes "us")

-- The records in the bucket.
abbrev pub stored : Text → ℕ → Text
stored node st = st ∷ (7 ∷ (0 ∷ (0 ∷ (3 ∷ (codes "api" ++ node)))))

abbrev pub copy_key : Text → Text
copy_key node = codes "alloc.api." ++ node

abbrev pub node_record : Text → Text → ℕ → Text
node_record id dc cpu = cpu ∷ (100 ∷ (2 ∷ (id ++ dc)))

abbrev pub bucket : Bucket
bucket = record {
  pairs =
      (copy_key (codes "n1"), (stored (codes "n1") 2, 1))
      ∷ ((copy_key (codes "gone"), (stored (codes "gone") 2, 2))
          ∷ ((codes "node.n1", (node_record (codes "n1") (codes "eu") 100, 3))
              ∷ ((codes "node.n2", (node_record (codes "n2") (codes "us") 100, 4)) ∷ [])));
  revision = 4;
  clock = 1000;
  rivals = [];
}

-- The same with no node that is ready.
abbrev pub dark : Bucket
dark = record {
  pairs =
      (copy_key (codes "gone"), (stored (codes "gone") 2, 1))
      ∷ ((codes "node.n1", (node_record (codes "n1") (codes "eu") 0, 2)) ∷ []);
  revision = 2;
  clock = 1000;
  rivals = [];
}

-- A copy that is pending, and another writer that takes it to running.
abbrev pub contested : Bucket
contested = record {
  pairs = (copy_key (codes "n1"), (stored (codes "n1") 0, 1)) ∷ [];
  revision = 1;
  clock = 1000;
  rivals = (copy_key (codes "n1"), stored (codes "n1") 2) ∷ [];
}

-- A service after a rollback that failed.
abbrev pub held : Bucket
held = record {
  pairs = (codes "service.api.cooldown", (0 ∷ (0 ∷ (0 ∷ (1 ∷ (0 ∷ [])))), 1)) ∷ [];
  revision = 1;
  clock = 1000;
  rivals = [];
}
