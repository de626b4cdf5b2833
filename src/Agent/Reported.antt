-- ===== src/Agent/Reported.antt =====
-- What a node reports: the bounds of its resources, and its status while the bucket cannot be read.
use asty.Common.{ℕ, ◌+◌, ◌≤◌, ◌≡◌, ◌⊎◌, Option, none, some, List, ◌∷◌, Text, arith, []}
use asty.Common.Int.{ℤ}
use asty.Types.Node.{NodeStatus}
use asty.Settings.Schema.{AgentCapacityConfig}
use asty.Agent.Capacity.{
  Sample, BrokerStats, Machine, Resources, overridden, left_of, own_cpu, cpu_available,
  memory_available, disk_available, resources_of,
}
use asty.Kv.Store.{Store}

left_of_le : (total used : ℕ) → left_of total used ≤ total
unfolding left_of
left_of_le total used = ground arith

left_of_parts :
    (total used : ℕ)
    → (left_of total used + used ≡ total) ⊎ ((left_of total used ≡ 0) × (total ≤ used))
unfolding left_of
left_of_parts total used = ground arith

-- What the operating system tells of memory, disk and swap fits together.
pub record IsSound {F : Type 0} (m : Machine F) : Type 0 where
  pub memory : m.memory_available_mb ≤ m.memory_mb
  pub disk : m.disk_available_mb ≤ m.disk_mb
  pub swap : m.swap_available_mb ≤ m.swap_mb

pub record IsBounded {F : Type 0} (r : Resources F) : Type 0 where
  pub cpu : r.cpu_available ≤ r.cpu_total
  pub memory : r.memory_available ≤ r.memory_total
  pub disk : r.disk_available ≤ r.disk_total
  pub swap : r.swap_available ≤ r.swap_total

module _ {F : Type 0} (caps : AgentCapacityConfig) (m : Machine F) (nats : BrokerStats F) where
  cpu_available_le : (total used : ℕ) → cpu_available caps m nats total used ≤ total
  unfolding cpu_available
  cpu_available_le total used = ground (
    arith,
    left_of_le total (used + own_cpu m.self + nats.stats.cpu_mhz),
    left_of_le total (m.cpu_used_mhz total),
  )

  memory_available_le :
      (used : ℕ)
      → m.memory_available_mb ≤ m.memory_mb
      → memory_available caps m nats (overridden caps.memory_total m.memory_mb) used
        ≤ overridden caps.memory_total m.memory_mb
  unfolding memory_available overridden
  memory_available_le used h =
      ground (arith, h, left_of_le (overridden caps.memory_total m.memory_mb))

  disk_available_le :
      (own used : ℕ)
      → m.disk_available_mb ≤ m.disk_mb
      → disk_available caps m (overridden caps.disk_total m.disk_mb) own used
        ≤ overridden caps.disk_total m.disk_mb
  unfolding disk_available overridden
  disk_available_le own used h =
      ground (arith, h, left_of_le (overridden caps.disk_total m.disk_mb))

  overridden_le : (o : ℤ) (a b : ℕ) → a ≤ b → overridden o a ≤ overridden o b
  unfolding overridden
  overridden_le o a b h = ground (arith, h)

  -- Of each resource no more is available than there is in total, whatever overrides are set and
  -- whatever is in use, where the operating system reports no more available than there is.
  pub resources_of-IsBounded :
      IsSound m → (ps : List (Text × Option (Sample F))) → IsBounded (resources_of caps m nats ps)
  unfolding resources_of
  resources_of-IsBounded s ps = record {
    cpu = cpu_available_le _ _;
    memory = memory_available_le _ s.memory;
    disk = disk_available_le _ _ s.disk;
    swap = overridden_le caps.swap_total _ _ s.swap;
  }

-- Every beat up to the next one that reads a record publishes the status.
pub IsHeld : NodeStatus → List (Option NodeStatus × NodeStatus) → Type 0
IsHeld status [] = Unit
IsHeld status ((none, p) ∷ rest) = (p ≡ status) × IsHeld status rest
IsHeld status ((some r, p) ∷ rest) = Unit
