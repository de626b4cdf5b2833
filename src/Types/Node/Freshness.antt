-- ===== src/Types/Node/Freshness.antt =====
-- How the age of the heartbeat and the stored status make the effective status.
use asty.Common.{ℕ, ◌+◌, ◌≤◌, ◌<◌, ◌≡◌, ◌≢◌, ◌⊎◌, ◌↔◌, true, arith}
use asty.Types.Node.{
  NodeStatus, NodeInfo, ready, stale, down, is_healthy, effective_status, fresh_after, stale_after,
}

-- The statuses that the freshness check decides.
abbrev pub Checked : NodeStatus → Type 0
Checked s = (s ≡ ready) ⊎ (s ≡ stale) ⊎ (s ≡ down)

-- A checked node is down from two minutes after its heartbeat on, stale from 30 seconds on, and
-- ready before.
pub effective_status-Checked :
    (n : NodeInfo) (at : ℕ)
    → Checked n.status
    → ((effective_status n at ≡ down) ↔ (n.last_seen + stale_after ≤ at))
      × ((effective_status n at ≡ ready) ↔ (at < n.last_seen + fresh_after))
      × Checked (effective_status n at)
unfolding effective_status
effective_status-Checked n at c =
    ((λ h. ground arith, λ h. ground arith), (λ h. ground arith, λ h. ground arith), ground arith)

-- A node is usable exactly when it was stored as ready and is not down in effect.
pub is_healthy_iff :
    (n : NodeInfo) (at : ℕ)
    → (is_healthy n at ≡ true) ↔ ((n.status ≡ ready) × (effective_status n at ≢ down))
unfolding is_healthy effective_status
is_healthy_iff n at = (λ h. ground arith, λ h. ground arith)
