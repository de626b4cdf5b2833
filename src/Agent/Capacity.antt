-- ===== src/Agent/Capacity.antt =====
-- asty/internal/agent/nodeinfo.go, with the baselines of sysinfo.go and the overrides at the head of the
-- functions of sysinfo_linux.go: what a node reports of its resources. `F` stands for the
-- floating-point numbers.
use asty.Common.{ℕ, ◌+◌, ◌-◌, ◌*◌, ◌/◌, Option, none, some, List, [], ◌∷◌, Text, if◌then◌else◌, leb}
use asty.Common.Int.{ℤ, pos, pos_part, ltb_ℤ, leb_ℤ}
use asty.Settings.Schema.{AgentCapacityConfig}

-- What the collector has for a process: its share of the CPU as the number and as MHz
-- (`int(percent * 40)`), and its memory.
pub record Sample (F : Type 0) : Type 0 where
  pub cpu_percent : F
  pub cpu_mhz : ℕ
  pub memory_mb : ℕ

-- `natsStats`.
pub record BrokerStats (F : Type 0) : Type 0 where
  pub stats : Sample F
  pub jet_stream_bytes : ℕ

-- What the operating system tells; `fifth` is the default share of a disk for the system.
pub record Machine (F : Type 0) : Type 0 where
  pub cpu_mhz : ℕ
  pub cpu_used_mhz : ℕ → ℕ
  pub memory_mb : ℕ
  pub memory_available_mb : ℕ
  pub disk_mb : ℕ
  pub disk_available_mb : ℕ
  pub swap_mb : ℕ
  pub swap_available_mb : ℕ
  pub self : Option (Sample F)
  pub binary_mb : ℕ
  pub work_dir_mb : ℕ
  pub fifth : ℕ → ℕ

-- The resources in the record of a node.
pub record Resources (F : Type 0) : Type 0 where
  pub cpu_total : ℕ
  pub cpu_available : ℕ
  pub memory_total : ℕ
  pub memory_available : ℕ
  pub disk_total : ℕ
  pub disk_available : ℕ
  pub swap_total : ℕ
  pub swap_available : ℕ
  pub self_memory_mb : ℕ
  pub self_disk_mb : ℕ
  pub nats_disk_mb : ℕ
  pub processes : List Text

-- An override that counts only if it is positive.
unfoldable pub overridden : ℤ → ℕ → ℕ
overridden o n = if ltb_ℤ (pos 0) o then pos_part o else n

-- A baseline that counts unless it is negative.
unfoldable pub baseline : ℤ → ℕ → ℕ
baseline o n = if leb_ℤ (pos 0) o then pos_part o else n

-- `available := total - used`, and the test against 0 behind it.
unfoldable pub left_of : ℕ → ℕ → ℕ
left_of total used = if leb total used then 0 else total - used

module _ {F : Type 0} where
  -- The loop over the processes: their names, MHz and memory. A process without a sample counts only
  -- by its name.
  unfoldable pub used_by : List (Text × Option (Sample F)) → List Text × ℕ × ℕ
  used_by [] = ([], 0, 0)
  used_by ((name, m) ∷ ps) =
      let (names, cpu, memory) = used_by ps in
      elim m [
        | none ↦ (name ∷ names, cpu, memory)
        | some s ↦ (name ∷ names, s.cpu_mhz + cpu, s.memory_mb + memory)
      ]

  unfoldable pub own_cpu : Option (Sample F) → ℕ
  own_cpu none = 0
  own_cpu (some s) = s.cpu_mhz

  unfoldable pub own_memory : Option (Sample F) → ℕ
  own_memory none = 0
  own_memory (some s) = s.memory_mb

  unfoldable pub cpu_available : AgentCapacityConfig → Machine F → BrokerStats F → ℕ → ℕ → ℕ
  unfolding left_of own_cpu
  cpu_available caps m nats total used =
      if ltb_ℤ (pos 0) caps.cpu_total
      then left_of total (used + own_cpu m.self + nats.stats.cpu_mhz)
      else left_of total (m.cpu_used_mhz total)

  unfoldable pub memory_available : AgentCapacityConfig → Machine F → BrokerStats F → ℕ → ℕ → ℕ
  unfolding left_of own_memory
  memory_available caps m nats total used =
      if ltb_ℤ (pos 0) caps.memory_total
      then left_of total (used + own_memory m.self + nats.stats.memory_mb)
      else m.memory_available_mb

  unfoldable pub nats_disk : AgentCapacityConfig → BrokerStats F → ℕ
  unfolding baseline
  nats_disk caps nats =
      let stored = nats.jet_stream_bytes / (1024 * 1024) in
      if ltb_ℤ (pos 0) caps.disk_total then stored + baseline caps.nats_disk_baseline 30 else stored

  unfoldable pub disk_available : AgentCapacityConfig → Machine F → ℕ → ℕ → ℕ → ℕ
  unfolding left_of baseline
  disk_available caps m total own nats =
      if ltb_ℤ (pos 0) caps.disk_total
      then left_of total (baseline caps.disk_os_baseline (m.fifth total) + own + nats)
      else m.disk_available_mb

  -- The resources that `getNodeInfo` puts together.
  unfoldable pub resources_of :
      AgentCapacityConfig
      → Machine F
      → BrokerStats F
      → List (Text × Option (Sample F))
      → Resources F
  unfolding overridden used_by cpu_available memory_available nats_disk disk_available own_memory
  resources_of caps m nats ps =
      let (names, cpu_used, memory_used) = used_by ps in
      let cpu = overridden caps.cpu_total m.cpu_mhz in
      let memory = overridden caps.memory_total m.memory_mb in
      let disk = overridden caps.disk_total m.disk_mb in
      let own = m.binary_mb + m.work_dir_mb in
      record {
        cpu_total = cpu;
        cpu_available = cpu_available caps m nats cpu cpu_used;
        memory_total = memory;
        memory_available = memory_available caps m nats memory memory_used;
        disk_total = disk;
        disk_available = disk_available caps m disk own (nats_disk caps nats);
        swap_total = overridden caps.swap_total m.swap_mb;
        swap_available = overridden caps.swap_total m.swap_available_mb;
        self_memory_mb = own_memory m.self;
        self_disk_mb = own;
        nats_disk_mb = nats_disk caps nats;
        processes = names;
      }
