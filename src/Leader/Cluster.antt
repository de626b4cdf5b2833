-- ===== src/Leader/Cluster.antt =====
-- Nodes that campaign for one lease, in any order, with leases that expire at any time. `held` is the
-- revision under which the key stands in the bucket, `issued` the largest revision so far.
use asty.Common.{ℕ, ◌≤◌, ◌<◌, ◌==◌, ◌≡◌, ◌⊎◌, false, Option, none, some, if◌then◌else◌}
use asty.Leader.Campaign.{Slot, Election, new_election, attempt, step_down}

-- What the bucket's documentation says of a key of which it keeps one revision. A write that
-- succeeds makes a revision above all earlier ones; `Create` succeeds on a missing key only, `Update`
-- on the revision that it names. A write that answers with an error may have been carried out, if its
-- answer was lost.
pub record IsLease {B : Type 0} (s : Slot B) (held : B → Option ℕ) (issued : B → ℕ) : Type 0 where
  pub create_ok :
      (b b' : B) (q : ℕ)
      → s.create b ≡ (some q, b')
      → (held b ≡ none) × (held b' ≡ some q) × (issued b < q) × (issued b' ≡ q)
  pub create_failed :
      (b b' : B)
      → s.create b ≡ (none, b')
      → (issued b ≤ issued b')
        × ((held b' ≡ held b) ⊎ ((held b' ≡ some (issued b')) × (issued b < issued b')))
  pub update_ok :
      (r : ℕ) (b b' : B) (q : ℕ)
      → s.update r b ≡ (some q, b')
      → (held b ≡ some r) × (held b' ≡ some q) × (issued b < q) × (issued b' ≡ q)
  pub update_failed :
      (r : ℕ) (b b' : B)
      → s.update r b ≡ (none, b')
      → (issued b ≤ issued b')
        × ((held b' ≡ held b) ⊎ ((held b' ≡ some (issued b')) × (issued b < issued b')))
  pub deleted :
      (b : B)
      → (issued b ≤ issued (s.delete b).1)
        × ((held (s.delete b).1 ≡ held b) ⊎ (held (s.delete b).1 ≡ none))
  pub deleted_ok : (b : B) → ((s.delete b).0 ≡ false) ⊎ (held (s.delete b).1 ≡ none)

-- The nodes by number, and the bucket.
pub record Cluster (B : Type 0) : Type 0 where
  pub node : ℕ → Election
  pub bucket : B

-- `e` at place `i`.
abbrev pub put_node : ℕ → Election → (ℕ → Election) → ℕ → Election
put_node i e f j = if i == j then e else f j

module _ {B : Type 0} (s : Slot B) (held : B → Option ℕ) (issued : B → ℕ) where
  -- A step: a node's campaign loop turns, a node shuts down, or the key expires.
  pub data Step (c : Cluster B) : Cluster B → Type 0 where
    tries :
        (i : ℕ)
        → Step c (record {
          node = put_node i (attempt s (c.node i) c.bucket).node c.node;
          bucket = (attempt s (c.node i) c.bucket).bucket;
        })
    stops :
        (i : ℕ)
        → Step c (record {
          node = put_node i (step_down s (c.node i) c.bucket).node c.node;
          bucket = (step_down s (c.node i) c.bucket).bucket;
        })
    expires :
        (b : B)
        → held b ≡ none
        → issued b ≡ issued c.bucket
        → Step c (record { node = c.node; bucket = b })

  -- Reachable from new nodes, whatever the bucket holds.
  pub data Reach : Cluster B → Type 0 where
    start : (b : B) → Reach (record { node = λ i. new_election; bucket = b })
    later : {c d : Cluster B} → Reach c → Step c d → Reach d
