-- ===== src/Examples/Deployments.antt =====
-- A deployment of the service of the small cluster, and a wait of it.
use asty.Common.{
  ℕ, ◌+◌, ◌≤◌, ◌≡◌, refl, ◌⊎◌, inr, Bool, true, false, Option, none, some, List, [], ◌∷◌, Text,
  codes, arith,
}
use asty.Common.Int.{pos}
use asty.Types.Allocation.{AllocationStatus, ServiceAllocation, running, starting}
use asty.Deployer.Plan.{completed, DeploymentRecord, DeploymentPlan, new_deployer, is_in_flight}
use asty.Deployer.History.{apply_remote_record}
use asty.Deployer.Tracker.{HealthTracker, Wake, changed, timer, new_health_tracker}
use asty.Deployer.Rollout.{Site, Env}
use asty.Deployer.Run.{deploy}
use asty.Deployer.Ring.{Applied, apply_remote_record_lem}
use asty.Deployer.Finish.{EndsOver, deploy-IsOver}
use asty.Examples.Bucket.{Bucket, memory}
use asty.Examples.Cluster.{api, copy_on, bucket}

-- Every command is taken, and a timer wakes a wait late enough.
abbrev env : Env Bucket
env = record {
  store = memory;
  restart = λ node svc version b. (true, b);
  watch = λ batch b. (changed (codes "api/n1") running 2000 ∷ (timer 9000 ∷ []), b);
  stop = λ b. false;
}

abbrev plan : DeploymentPlan
plan = record {
  service_name = codes "api";
  current_version = codes "1";
  target_version = codes "2";
  update_strategy = record {
    max_parallel = pos 1;
    min_healthy_time = 5000;
    auto_revert = true;
    canary = pos 0;
    canary_retries = pos 0;
  };
  allocations = copy_on (codes "n1") running ∷ [];
  service = some api;
}

abbrev site : Site Bucket
site = record { deployer = new_deployer; bucket = bucket }

deploy-IsOver_example : EndsOver env plan (deploy env plan site)
unfolding is_in_flight asty.Common.Map.has new_deployer
deploy-IsOver_example = deploy-IsOver env plan site refl (omega arith)

abbrev tracker : HealthTracker
tracker = new_health_tracker (copy_on (codes "n1") running ∷ []) 5000

abbrev wakes : List Wake
wakes =
    changed (codes "api/n1") running 1000
    ∷ (changed (codes "api/n1") starting 3000
        ∷ (timer 6000 ∷ (changed (codes "api/n1") running 7000 ∷ (timer 12000 ∷ []))))

abbrev remote : DeploymentRecord
remote = record {
  id = (codes "api", 5);
  service = codes "api";
  version = codes "2";
  by_canary = false;
  status = completed;
  progress = 100;
  rollback_steps = [];
}

apply_remote_record_lem_example : Applied remote (apply_remote_record remote new_deployer)
unfolding new_deployer
apply_remote_record_lem_example = apply_remote_record_lem remote new_deployer (omega arith)
