-- ===== src/Examples/Bucket.antt =====
-- A bucket in memory that fills the interface of the key-value store. A list of rival writes comes
-- between a read and the next update, one for each update.
use asty.Common.{
  ℕ, zero, suc, ◌+◌, ◌-◌, Bool, true, false, Option, none, some, List, [], ◌∷◌, ◌++◌, Text, codes,
  has_prefix, if◌then◌else◌, ◌==◌, length, take, drop,
}
use asty.Common.Int.{ℤ, pos, pos_part}
use asty.Common.Map.{Map, lookup, insert, erase}
use asty.Types.Allocation.{
  AllocationStatus, ServiceAllocation, ServiceCooldown, pending, starting, running, restarting,
  stopping, stopped, failed, deleted, unset,
}
use asty.Types.Node.{NodeInfo, ready, down}
use asty.Kv.Store.{Store, Fetch, missing, entry, Write, written, conflict, ServiceVersion}

pub record Bucket : Type 0 where
  pub pairs : Map (Text × ℕ)
  pub revision : ℕ
  pub clock : ℕ
  pub rivals : List (Text × Text)

abbrev pub code_of : AllocationStatus → ℕ
code_of pending = 0
code_of starting = 1
code_of running = 2
code_of restarting = 3
code_of stopping = 4
code_of stopped = 5
code_of failed = 6
code_of deleted = 7
code_of unset = 8

abbrev pub status_with : ℕ → AllocationStatus
status_with zero = pending
status_with (suc zero) = starting
status_with (suc (suc zero)) = running
status_with (suc (suc (suc n))) = failed

abbrev pub some_if : ℕ → Option ℕ
some_if zero = none
some_if (suc t) = some t

abbrev pub number_of : Option ℕ → ℕ
number_of none = 0
number_of (some t) = suc t

abbrev pub flag : Bool → ℕ
flag true = 1
flag false = 0

abbrev pub encode_allocation : ServiceAllocation → Option Text
encode_allocation a = some (
    code_of a.status
    ∷ (a.pid
        ∷ (a.consecutive_failures
            ∷ (number_of a.updated_at ∷ (length a.service_name ∷ (a.service_name ++ a.node_id))))))

abbrev pub decode_allocation : Text → Option ServiceAllocation
decode_allocation (st ∷ (pid ∷ (fails ∷ (at ∷ (n ∷ rest))))) = some (record {
  id = codes "id";
  service_name = take n rest;
  node_id = drop n rest;
  status = status_with st;
  version = [];
  pid = pid;
  cpu_usage = 10;
  memory_usage = 10;
  restarts = 0;
  consecutive_failures = fails;
  created_at = none;
  updated_at = some_if at;
})
decode_allocation _ = none

abbrev pub encode_node : NodeInfo → Option Text
encode_node n = some (
    pos_part n.cpu_available
    ∷ (pos_part n.memory_available ∷ (length n.id ∷ (n.id ++ n.datacenter))))

abbrev pub decode_node : Text → Option NodeInfo
decode_node (cpu ∷ (memory ∷ (n ∷ rest))) = some (record {
  id = take n rest;
  datacenter = drop n rest;
  status = if cpu == 0 then down else ready;
  last_seen = 0;
  cpu_available = pos cpu;
  memory_available = pos memory;
})
decode_node _ = none

abbrev pub encode_cooldown : ServiceCooldown → Option Text
encode_cooldown c = some (
    number_of c.last_scale_up
    ∷ (number_of c.last_scale_down
        ∷ (number_of c.idle_since ∷ (flag c.rollback_failed ∷ (flag c.deploy_in_progress ∷ [])))))

abbrev pub decode_cooldown : Text → Option ServiceCooldown
decode_cooldown (u ∷ (d ∷ (i ∷ (r ∷ (p ∷ []))))) = some (record {
  last_scale_up = some_if u;
  last_scale_down = some_if d;
  idle_since = some_if i;
  rollback_failed = r == 1;
  deploy_in_progress = p == 1;
})
decode_cooldown _ = none

abbrev pub decode_scale : Text → Option ℤ
decode_scale (n ∷ []) = some (pos n)
decode_scale _ = none

abbrev pub decode_version : Text → Option ServiceVersion
decode_version v = some (record { current = v; previous = [] })

abbrev pub write_pair : Text → Text → Bucket → Bucket
write_pair k v b = record b {
  pairs = insert k (v, b.revision + 1) b.pairs;
  revision = b.revision + 1;
}

-- The write of the next rival.
abbrev pub rival_first : List (Text × Text) → Bucket → Bucket
rival_first [] b = b
rival_first ((k, v) ∷ rest) b = record (write_pair k v b) { rivals = rest }

abbrev pub fetch_pair : Option (Text × ℕ) → Bucket → Fetch Bucket
fetch_pair none b = missing b
fetch_pair (some (v, r)) b = entry v r b

abbrev pub write_if : Option (Text × ℕ) → Text → Text → ℕ → Bucket → Write Bucket
write_if none k v r b = conflict b
write_if (some (w, r')) k v r b = if r == r' then written (write_pair k v b) else conflict b

abbrev pub create_if : Option (Text × ℕ) → Text → Text → Bucket → Write Bucket
create_if none k v b = written (write_pair k v b)
create_if (some w) k v b = conflict b

abbrev pub listed : List (Text × (Text × ℕ)) → Text → List (Text × Text)
listed [] start = []
listed ((k, (v, r)) ∷ pairs) start =
    let rest = listed pairs start in if has_prefix k start then (k, v) ∷ rest else rest

abbrev pub memory : Store Bucket
memory = record {
  get = λ k b. fetch_pair (lookup k b.pairs) b;
  put = λ k v b. written (write_pair k v b);
  create = λ k v b. create_if (lookup k b.pairs) k v b;
  update = λ k v r b. let b' = rival_first b.rivals b in write_if (lookup k b'.pairs) k v r b';
  delete = λ k b. written (record b { pairs = erase k b.pairs });
  snapshot = λ pattern b. (some (listed b.pairs (take (length pattern - 1) pattern)), b);
  now = λ b. (b.clock, record b { clock = b.clock + 1 });
  fresh_id = λ b. (some (codes "id"), b);
  allocations = record { marshal = encode_allocation; unmarshal = decode_allocation };
  cooldowns = record { marshal = encode_cooldown; unmarshal = decode_cooldown };
  nodes = record { marshal = encode_node; unmarshal = decode_node };
  scales = record { marshal = λ n. some (pos_part n ∷ []); unmarshal = decode_scale };
  versions = record { marshal = λ v. some v.current; unmarshal = decode_version };
}
