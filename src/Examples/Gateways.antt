-- ===== src/Examples/Gateways.antt =====
-- The rate limiter with tables of two addresses. A limiter counts the calls that it still allows.
use asty.Common.{
  ◌⊎◌, ℕ, ◌-◌, ◌≤◌, ◌≡◌, refl, Bool, List, [], ◌∷◌, ◌++◌, Text, codes, length, max, same, arith,
  ltb,
}
use asty.Common.Int.{ℤ, pos, pos_part}
use asty.Common.Map.{has, lookup}
use asty.Gateway.Limiter.{IpTable, PathRule, get, allow_path, new_ip_table}
use asty.Gateway.Limiter.Table.{IsSound, get-IsSound}
use asty.Gateway.Limiter.Matching.{ByRule, Unlimited, allow_path-IsBest}

-- Two addresses; the first has not been seen for longer.
abbrev two : IpTable ℕ
two = record {
  m =
      (codes "a", record { limiter = 1; last_seen = 10 })
      ∷ ((codes "b", record { limiter = 1; last_seen = 20 }) ∷ []);
  lst = codes "a" ∷ (codes "b" ∷ []);
}

two-IsSound : IsSound two
unfolding has lookup same
two-IsSound = record {
  agree = λ k. ground arith;
  once = (refl, (refl, tt));
  keyed = (refl, (refl, tt));
  sized = refl;
}

get-IsSound_example :
    let t' = (get (pos 2) (codes "c") 5 30 two).1 in
    IsSound t' × (length t'.m ≤ max 1 2) × ((rest : List Text) × (t'.lst ≡ rest ++ codes "c" ∷ []))
get-IsSound_example = get-IsSound (pos 2) (codes "c") 5 30 two two-IsSound (omega arith)

abbrev fresh : ℕ → ℤ → ℕ
fresh rate burst = pos_part burst

abbrev allow : ℕ → ℕ → Bool × ℕ
allow l now = (ltb 0 l, l - 1)

abbrev rules : List (PathRule ℕ ℕ)
rules =
    record { prefix = codes "/api/pay"; rate = 1; burst = pos 1; table = new_ip_table }
    ∷ (record { prefix = codes "/api"; rate = 5; burst = pos 9; table = two } ∷ [])

allow_path-IsBest_example :
    Unlimited rules
      (codes "/api/list")
      (allow_path fresh allow (pos 2) rules (codes "a") (codes "/api/list") 30)
    ⊎ ByRule fresh allow
        (pos 2)
        rules
        (codes "a")
        (codes "/api/list")
        30
        (allow_path fresh allow (pos 2) rules (codes "a") (codes "/api/list") 30)
allow_path-IsBest_example =
    allow_path-IsBest fresh allow (pos 2) rules (codes "a") (codes "/api/list") 30
      ((refl, tt), (tt, tt))
