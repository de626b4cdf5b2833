-- ===== src/Lib.antt =====
-- The verification library of asty, the orchestrator of this repository (asty/ holds its Go code). A
-- leader places copies of services on the nodes of a cluster. It keeps everything in one key-value
-- bucket: the nodes with their heartbeats, the copies ("allocations"), and for each service an
-- override of its scale, its version and a cooldown record. Watches put the names of services into a
-- work queue; workers take a name, bring the copies of the service up to its target, send start
-- commands to the agents, prune copies that failed for good and let the autoscaler grow or shrink the
-- service by one.
--
-- The modules and the code that they model:
--   Ringbuf      asty/internal/core/util/ringbuf/ringbuf.go: `new`, `push`, `snapshot`, `last`
--   Workqueue    asty/internal/ops/reconciler/workqueue.go: `Add`, `Get`, `Done`, `AddAfter`,
--                `AddRateLimited`, `Forget`, `ShutDown` and the loop that releases delayed keys
--   Types        asty/internal/core/types: allocation.go, node.go, service.go, service_accessors.go
--   Kv           asty/internal/infra/kv: allocations.go, cooldowns.go, scale.go, version.go, nodes.go
--   Proximity    asty/internal/domain/proximity: matrix.go, sort.go
--   Scheduler    asty/internal/ops/scheduler: helpers.go, candidates.go, scheduler.go, reconcile.go
--   Autoscaler   asty/internal/ops/autoscaler: autoscaler.go, cooldown.go, scale_up.go, scale_down.go,
--                execute.go
--   Controller   asty/internal/ops/reconciler: reconcile.go, controller.go, autoscale.go, watch.go
--   Gateway      asty/internal/api/gateway: ratelimit.go, routing.go, and parts of http.go, errors.go and
--                middleware.go
--   Leader       asty/internal/ops/leader: campaign.go, election.go, watch.go, and nodes that campaign
--                for one lease
--   Deployer     asty/internal/ops/deployer: lifecycle.go, touched.go, history.go, tracker.go, wait.go,
--                rolling.go, canary.go, rollback.go, deployer.go
--   Drainer      asty/internal/ops/drainer, with the drain records of asty/internal/infra/kv/drains.go
--   Agent        asty/internal/agent: services.go, stop.go, restart.go, natspeers.go, heartbeat.go,
--                nodeinfo.go, parts of sysinfo.go; monitor.go of asty/internal/infra/process
--   Broker       asty/internal/core/natsconf, and natssup.go, natswatch.go, natssolo.go and parts of
--                commands.go and natspeers.go in asty/internal/agent
--   Server       asty/internal/server: streamreplicas.go, deadpeers.go, clustersize.go, a part of kv.go
--   Settings     asty/internal/core/config
--   Netutil      asty/internal/core/netutil: origin.go, realip.go, kv.go
--   Metrics      asty/internal/ops/autoscaler/metrics: store.go, service_rps.go
--   Artifact     asty/internal/infra/artifact: downloader.go, extract.go
--   Dashboard    asty/internal/api/dashboard: services_scale.go, allocations.go, nodes.go, audit.go,
--                versions.go, lookup.go, leaderguard.go, a part of services.go
--   Common       lists, texts, integers, sorting and maps; Examples has tests and a bucket in memory
--
-- State and operations. A Go struct is a record, a method a function that takes the record and returns
-- the new one. The bucket is the interface `Store` of Kv.Store over a type of states `B`: each read,
-- write and reading of the clock takes a state and returns one, so another writer may act in any of
-- them. A write answers that it is done, that the revision did not match, or that it failed; that is
-- what asty/internal/infra/kv/state.go tells apart. No law of the bucket is assumed. An error is a
-- value; the log lines are left out. A callback of `MutateAllocation` that assigns to variables of its
-- caller takes and returns them. A mutex section is one step.
--
-- Numbers. `int` is the integer type of Common.Int and does not wrap: the values are counts, megabytes,
-- percents and nanoseconds. Times are numbers of nanoseconds, `none` for the zero time. A string is a
-- list of bytes.
--
-- Loops are recursion on the list they go over. The compare-and-swap loops have the source's 8 attempts
-- as their bound; the loop of the backoff has one round for each failure.
--
-- Not modelled: the bus and its watches, goroutines and timers (a release of delayed keys is a step at
-- a given time), JSON, HTTP, the starting of processes, the publishing of metrics, and logs. Code outside the repository is an argument:
-- the bucket, the codecs, `time.ParseDuration`, the token buckets of the rate limiter, the call to the
-- agent. The average of floating-point samples that decides whether a node has gateway traffic is an
-- argument too. `sort.Slice` is an insertion sort: among items that its comparator does not tell apart
-- Go's order is not fixed, and this model keeps that of the input. Where Go ranges over a map in a
-- random order, the model goes in the order in which the keys were made.
--
-- The lease of the leader is the interface `Slot`, with the documented laws of the bucket as the record
-- `IsLease`. The deployer takes what wakes a health wait as a list, which the deadline or a cancel cuts
-- off.
--
-- The allocations of a drain are handled one after the other, in the order in which the source starts
-- their goroutines; the status object of a drain stands in a list, and the manager's entry and the
-- goroutine share its place.
--
-- The retries of `retryWithBackoff` have 100 rounds of fuel, of which they use 15. The timers of the
-- campaign, the agent's privileges and the dashboard's streams are not modelled.
--
-- The broker of a node runs on the interface `Host`, with the documented behaviour of files and of the
-- broker's process as the record `IsHost`. A collapse takes the events that other goroutines of the agent
-- handle during its work on the disk as a list.
--
-- The dashboard's handlers take the body of a request as it was parsed, or `none`, and give the code and
-- the body of the answer. An artifact is unpacked on the interface `FileSystem`; an archive is what the
-- readers of gzip and tar give of it. What a node reports takes the readings of the operating system and
-- the floating-point numbers, with the conversions that the code makes, as arguments.
pub mod Common
pub mod Ringbuf
pub mod Workqueue
pub mod Types
pub mod Kv
pub mod Proximity
pub mod Scheduler
pub mod Server
pub mod Settings
pub mod Gateway
pub mod Agent
pub mod Artifact
pub mod Autoscaler
pub mod Broker
pub mod Controller
pub mod Examples
pub mod Leader
pub mod Metrics
pub mod Netutil
pub mod Dashboard
pub mod Deployer
pub mod Drainer
