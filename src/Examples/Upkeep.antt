-- ===== src/Examples/Upkeep.antt =====
-- The upkeep of the bus, and the peers of a node.
use asty.Common.{
  ℕ, ◌≡◌, ◌≢◌, refl, inl, Bool, true, false, ◌||◌, Option, none, some, List, [], ◌∷◌, Text, codes,
}
use asty.Common.Int.{pos}
use asty.Server.Replicas.{ClusterConfig}
use asty.Server.Reaper.{JszResponse, reap_dead_peers, IsReported}
use asty.Server.Converged.{reap_dead_peers-IsReported}

abbrev evict : Text → ℕ → Bool × ℕ
evict name b = (true, b)

abbrev replicas : ClusterConfig
replicas = record { system_kv_replicas = pos 5; app_kv_replicas = pos 3 }

-- The reply of a follower, which is passed over, and that of the leader.
abbrev replies : List (Option JszResponse)
replies =
    some (record {
      server = codes "n2";
      leader = codes "n1";
      size = pos 3;
      replicas = record { name = codes "n1"; offline = true; active = 0 } ∷ [];
    })
    ∷ (some (record {
      server = codes "n1";
      leader = codes "n1";
      size = pos 3;
      replicas =
          record { name = codes "n2"; offline = false; active = 100 }
          ∷ (record { name = codes "n3"; offline = false; active = 16000000000 } ∷ []);
    })
        ∷ [])

reap_dead_peers-IsReported_example : IsReported (codes "n3") replies × (codes "n3" ≢ codes "n1")
unfolding reap_dead_peers asty.Common.same
reap_dead_peers-IsReported_example =
    reap_dead_peers-IsReported evict (codes "n1") (codes "n3") replies 0 (inl refl)
