-- ===== src/Examples/Dashboards.antt =====
-- Requests to the dashboard, the resources that a node reports, and an artifact.
use asty.Common.{
  ℕ, ◌+◌, ◌≡◌, ◌≢◌, ◌⊎◌, inr, refl, Bool, true, false, Option, none, some, List, [], ◌∷◌, ◌++◌,
  Text, codes, if◌then◌else◌, ◌==◌, arith,
}
use asty.Common.Int.{ℤ, pos}
use asty.Types.Node.{NodeInfo, drained}
use asty.Settings.Schema.{AgentCapacityConfig}
use asty.Agent.Capacity.{Sample, BrokerStats, Machine, resources_of}
use asty.Kv.Store.{Store, entry, unreadable}
use asty.Agent.Reported.{IsBounded, resources_of-IsBounded}
use asty.Artifact.Extract.{Fault, Archive, entry_then, end_of_archive, regular, FileSystem, extract}
use asty.Artifact.Paths.{is_rooted}
use asty.Artifact.Contained.{IsInside, extract-Keeps}
use asty.Artifact.Download.{Fetched, answered, is_local, copy_local, download}
use asty.Artifact.Verified.{IsVerified, download-IsVerified}
use asty.Dashboard.Api.{Api}
use asty.Dashboard.Services.{handle_service_scale}
use asty.Dashboard.Nodes.{handle_node_kill, kill_node}
use asty.Dashboard.Refusals.{
  is_refusal, CanScale, handle_service_scale-cases, handle_node_kill-cases,
}
use asty.Dashboard.Shapes.{Shape, restart_of, parts_of, path_of, expected, classify_path-expected}
use asty.Dashboard.Audit.{classify_path}
use asty.Examples.Bucket.{Bucket, memory}

abbrev sample : Sample ℕ
sample = record { cpu_percent = 50; cpu_mhz = 2000; memory_mb = 300 }

-- A development machine of 1000 MHz and 200 MB.
abbrev caps : AgentCapacityConfig
caps = record {
  cpu_total = pos 1000;
  memory_total = pos 200;
  disk_total = pos 500;
  swap_total = pos 0;
  disk_os_baseline = pos 100;
  nats_disk_baseline = pos 20;
  disk_type = [];
}

abbrev machine : Machine ℕ
machine = record {
  cpu_mhz = 8000;
  cpu_used_mhz = λ total. 100;
  memory_mb = 16000;
  memory_available_mb = 9000;
  disk_mb = 100000;
  disk_available_mb = 50000;
  swap_mb = 1000;
  swap_available_mb = 900;
  self = some sample;
  binary_mb = 40;
  work_dir_mb = 60;
  fifth = λ n. 0;
}

abbrev broker : BrokerStats ℕ
broker = record { stats = sample; jet_stream_bytes = 3145728 }

resources_of-IsBounded_example :
    IsBounded (resources_of caps machine broker ((codes "api", some sample) ∷ []))
resources_of-IsBounded_example =
    resources_of-IsBounded caps machine broker
      (record { memory = omega arith; disk = omega arith; swap = omega arith })
      ((codes "api", some sample) ∷ [])

abbrev bare : Bucket
bare = record { pairs = []; revision = 0; clock = 0; rivals = [] }

abbrev drained_node : NodeInfo
drained_node = record {
  id = codes "n1";
  datacenter = codes "eu";
  status = drained;
  last_seen = 0;
  cpu_available = pos 4;
  memory_available = pos 4;
}

-- A bucket whose record of the node can be read at the first beat only.
abbrev losing : Store Bucket
losing = record memory {
  get = λ k b. if b.clock == 0 then entry [] 1 b else unreadable b;
  nodes = record { marshal = λ n. some []; unmarshal = λ v. some drained_node };
}

-- A file system that keeps the paths that were written.
abbrev files : FileSystem (List Text)
files = record { mkdir_all = λ p b. (true, b); write_file = λ p c b. (true, p ∷ b) }

abbrev bundle : Archive
bundle =
    entry_then (record { name = codes "api"; kind = regular (codes "x") })
      (entry_then (record { name = codes "../../etc/passwd"; kind = regular (codes "y") })
        end_of_archive)

-- Every path that was written is below the directory.
AllInside : List Text → Type 0
AllInside [] = ◌≡◌ {A = ℕ} 0 0
AllInside (p ∷ ps) = IsInside (codes "/srv") p × AllInside ps

extract-Keeps_example : AllInside (extract files (codes "/srv") (some bundle) []).1
unfolding AllInside is_rooted
extract-Keeps_example =
    extract-Keeps files (codes "/srv") AllInside (λ p b w k. k) (λ p c b i k. (i, k)) refl
      (some bundle) [] refl

refuses_climb : (extract files (codes "/srv") (some bundle) []).1 ≡ codes "/srv/api" ∷ []
unfolding extract asty.Artifact.Extract.extract_all asty.Common.has_prefix asty.Common.same
    asty.Gateway.Routing.split
refuses_climb = refl

abbrev fetch_bundle : Text → List Text → Fetched × List Text
fetch_bundle url b = (answered 200 (some (codes "tar")), b)

abbrev temp_file : List Text → Bool × List Text
temp_file b = (true, b)

abbrev no_source : Text → List Text → Option Text
no_source p b = none

abbrev digest : Text → Text
digest t = codes "abc"

abbrev unpack : Text → Option Archive
unpack t =
    some (entry_then (record { name = codes "api"; kind = regular (codes "x") }) end_of_archive)

abbrev url : Text
url = codes "https://cdn/api.tar.gz"

download-IsVerified_example :
    ((is_local url ≡ true)
      × (copy_local files temp_file fetch_bundle no_source digest unpack url (codes "/srv") []
          ≡ (none, codes "/srv/api" ∷ [])))
    ⊎ IsVerified files temp_file fetch_bundle no_source digest unpack url
        (codes "sha256:abc")
        (codes "/srv")
        []
        (codes "/srv/api" ∷ [])
unfolding download asty.Common.has_prefix asty.Common.same asty.Netutil.Origin.trim_space extract
    asty.Artifact.Extract.extract_all asty.Gateway.Routing.split
download-IsVerified_example =
    download-IsVerified files temp_file fetch_bundle no_source digest unpack url
      (codes "sha256:abc") (codes "/srv") [] (codes "/srv/api" ∷ []) refl

classify_path-expected_example :
    classify_path
      (λ t. t)
      (codes "POST")
      (path_of (parts_of (restart_of (codes "n1") (codes "a7"))))
    ≡ expected (restart_of (codes "n1") (codes "a7"))
unfolding asty.Dashboard.Shapes.IsNamed asty.Broker.Files.has_slash
classify_path-expected_example =
    classify_path-expected (λ t. t) (codes "POST") (restart_of (codes "n1") (codes "a7"))
      (refl, refl)

-- A cluster that is stable and knows no service.
abbrev quiet : Api Bucket
quiet = record {
  store = memory;
  services = [];
  max_copies = pos 5;
  snapshot = λ b. some [];
  restart_service = λ n s b. (true, b);
  stop_service = λ n s b. (true, b);
  wait_stopped = λ n s b. (true, b);
  reconcile_service = λ s b. b;
  publish_scale = λ s n c b. b;
  is_stabilized = λ b. true;
  shutdown_agent = λ n b. (true, b);
}

handle_service_scale-cases_example :
    ((is_refusal (handle_service_scale quiet (codes "api") (some (pos 2)) bare).0.code ≡ true)
      × ((handle_service_scale quiet (codes "api") (some (pos 2)) bare).1 ≡ bare)
      × ((count : ℤ) → some (pos 2) ≡ some count → CanScale quiet (codes "api") count → ⊥))
    ⊎ ((is_refusal (handle_service_scale quiet (codes "api") (some (pos 2)) bare).0.code ≡ false)
        × ((count : ℤ) × (some (pos 2) ≡ some count) × CanScale quiet (codes "api") count))
handle_service_scale-cases_example =
    handle_service_scale-cases quiet (codes "api") (some (pos 2)) bare

handle_node_kill-cases_example :
    ((is_refusal (handle_node_kill quiet (codes "n1") (some (codes "n1")) bare).0.code ≡ true)
      × ((handle_node_kill quiet (codes "n1") (some (codes "n1")) bare).1 ≡ bare)
      × ((some (codes "n1") ≢ some (codes "n1")) ⊎ (true ≡ false)))
    ⊎ (((handle_node_kill quiet (codes "n1") (some (codes "n1")) bare).0.code ≡ 200)
        × (handle_node_kill quiet (codes "n1") (some (codes "n1")) bare
            ≡ kill_node quiet (codes "n1") bare)
        × (some (codes "n1") ≡ some (codes "n1"))
        × (true ≡ true))
handle_node_kill-cases_example = handle_node_kill-cases quiet (codes "n1") (some (codes "n1")) bare
