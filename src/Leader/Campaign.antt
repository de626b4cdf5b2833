-- ===== src/Leader/Campaign.antt =====
-- asty/internal/ops/leader/campaign.go: the state machine of one node. `Slot` is the interface of the
-- leader key in the bucket: what `Create`, `Update` and `Delete` answer, and the state after them. A
-- write answers with the revision that it made, or with `none` for any error.
use asty.Common.{ℕ, ◌^◌, ◌-◌, Bool, true, false, Option, none, some, List, [], ◌∷◌}

pub data State : Type 0 where
  unknown candidate leader : State

-- The callbacks that a step runs.
pub data Notice : Type 0 where
  become lose : Notice

pub record Election : Type 0 where
  pub state : State
  pub last_seq : ℕ

-- `noLeaseSeq`, the largest uint64.
abbrev pub no_lease_seq : ℕ
no_lease_seq = 2 ^ 64 - 1

unfoldable pub new_election : Election
new_election = record { state = candidate; last_seq = no_lease_seq }

unfoldable pub is_leading : State → Bool
is_leading unknown = false
is_leading candidate = false
is_leading leader = true

unfoldable pub is_leader : Election → Bool
unfolding is_leading
is_leader e = is_leading e.state

pub record Slot (B : Type 0) : Type 0 where
  pub create : B → Option ℕ × B
  pub update : ℕ → B → Option ℕ × B
  pub delete : B → Bool × B

-- What a step leaves: the node, the bucket, and the callbacks that were run.
pub record Outcome (B : Type 0) : Type 0 where
  pub node : Election
  pub bucket : B
  pub notices : List Notice

module _ {B : Type 0} where
  -- `campaignForLeadership`, from the answer of `Create` on.
  unfoldable pub claimed : Election → Option ℕ × B → Outcome B
  claimed e (none, b) = record { node = e; bucket = b; notices = [] }
  claimed e (some seq, b) = record {
    node = record { state = leader; last_seq = seq };
    bucket = b;
    notices = become ∷ [];
  }

  -- `maintainLeadership`, from the answer of `Update` on.
  unfoldable pub refreshed : Election → Option ℕ × B → Outcome B
  refreshed e (none, b) = record {
    node = record { state = candidate; last_seq = no_lease_seq };
    bucket = b;
    notices = lose ∷ [];
  }
  refreshed e (some seq, b) = record {
    node = record e { last_seq = seq };
    bucket = b;
    notices = [];
  }

  module _ (s : Slot B) where
    unfoldable pub campaign_for_leadership : Election → B → Outcome B
    unfolding claimed
    campaign_for_leadership e b = claimed e (s.create b)

    unfoldable pub maintain_leadership : Election → B → Outcome B
    unfolding refreshed
    maintain_leadership e b = refreshed e (s.update e.last_seq b)

    -- The `switch` of `try`.
    unfoldable pub attempt_in : State → Election → B → Outcome B
    unfolding campaign_for_leadership maintain_leadership
    attempt_in leader e b = maintain_leadership e b
    attempt_in candidate e b = campaign_for_leadership e b
    attempt_in unknown e b = campaign_for_leadership e b

    -- `try`.
    unfoldable pub attempt : Election → B → Outcome B
    unfolding attempt_in
    attempt e b = attempt_in e.state e b

    -- `stepDown`, by whether the node was the leader; an error of `Delete` is only logged.
    unfoldable pub step_down_if : Bool → B → Outcome B
    unfolding new_election
    step_down_if false b = record { node = new_election; bucket = b; notices = [] }
    step_down_if true b = record {
      node = new_election;
      bucket = (s.delete b).1;
      notices = lose ∷ [];
    }

    unfoldable pub step_down : Election → B → Outcome B
    unfolding is_leader step_down_if
    step_down e b = step_down_if (is_leader e) b
