-- ===== src/Kv/Store.antt =====
-- The interface of the bucket and what stands round it.
use asty.Common.{ℕ, Option, List, Text}
use asty.Types.Allocation.{ServiceAllocation, ServiceCooldown}
use asty.Types.Node.{NodeInfo}
use asty.Common.Int.{ℤ}

-- `ServiceVersion`.
pub record ServiceVersion : Type 0 where
  pub current : Text
  pub previous : Text

-- What `Get` comes to: `jetstream.ErrKeyNotFound`, another error, or a value and its revision.
pub data Fetch (B : Type 0) : Type 0 where
  missing : B → Fetch B
  unreadable : B → Fetch B
  entry : Text → ℕ → B → Fetch B

-- What a write comes to: done, refused for its revision (`isCASConflict`), or failed otherwise.
pub data Write (B : Type 0) : Type 0 where
  written : B → Write B
  conflict : B → Write B
  refused : B → Write B

pub record Codec (A : Type 0) : Type 0 where
  pub marshal : A → Option Text
  pub unmarshal : Text → Option A

pub record Store (B : Type 0) : Type 0 where
  pub get : Text → B → Fetch B
  pub put : Text → Text → B → Write B
  pub create : Text → Text → B → Write B
  pub update : Text → Text → ℕ → B → Write B
  pub delete : Text → B → Write B
  -- `snapshotKVByPattern`: keys and values, or an error.
  pub snapshot : Text → B → Option (List (Text × Text)) × B
  pub now : B → ℕ × B
  pub fresh_id : B → Option Text × B
  pub allocations : Codec ServiceAllocation
  pub cooldowns : Codec ServiceCooldown
  pub nodes : Codec NodeInfo
  pub scales : Codec ℤ
  pub versions : Codec ServiceVersion

pub data KvError : Type 0 where
  not_found unavailable bad_data conflicted bad_count : KvError

-- The number of attempts of a compare-and-swap loop, `allocationMutateMaxRetries`.
abbrev pub max_retries : ℕ
max_retries = 8
