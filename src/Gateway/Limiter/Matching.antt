-- ===== src/Gateway/Limiter/Matching.antt =====
-- Which rule answers for a path.
use asty.Common.{
  ℕ, ◌≤◌, ◌≡◌, refl, Bool, true, false, Option, none, some, List, [], ◌∷◌, ◌++◌, ap, Text, arith,
  has_prefix, length, inl, inr, ◌⊎◌, Bool-cases, All,
}
use asty.Common.Int.{ℤ}
use asty.Common.Sort.{Sorted, IsLess, Sorted-sort}
use asty.Gateway.Limiter.{
  RateLimitRule, PathRule, longer, compiled, new_rules, allow_path, ask, get, settle,
}

longer-IsLess : {F L : Type 0} → IsLess (longer {F = F} {L = L})
longer-IsLess = record { asym = λ x y h. ground arith; below = λ x y z h k. ground arith }

-- An answer by one rule: it matches, no rule before it does, and none behind it has a longer prefix.
-- What is answered is what the limiter of the address in the rule's table says, and of all tables
-- only that one changes, to the table after `get` with the limiter after its answer.
pub record ByRule {F L : Type 0} (fresh : F → ℤ → L) (allow : L → ℕ → Bool × L) (max_ips : ℤ)
    (rules : List (PathRule F L)) (ip path : Text) (now : ℕ)
    (result : (Bool × Option Text) × List (PathRule F L)) : Type 0 where
  pub front : List (PathRule F L)
  pub rule : PathRule F L
  pub back : List (PathRule F L)
  pub placed : rules ≡ front ++ rule ∷ back
  pub matches : has_prefix rule.prefix path ≡ true
  pub first : All (λ r. has_prefix r.prefix path ≡ false) front
  pub longest : All (λ r. length r.prefix ≤ length rule.prefix) back
  pub answered :
      let (l, t) = get max_ips ip (fresh rule.rate rule.burst) now rule.table in
      result ≡ (
        ((allow l now).0, some rule.prefix),
        front ++ record rule { table = settle ip (allow l now).1 t } ∷ back,
      )

-- The answer where no rule matches.
pub record Unlimited {F L : Type 0} (rules : List (PathRule F L)) (path : Text)
    (result : (Bool × Option Text) × List (PathRule F L)) : Type 0 where
  pub unmatched : All (λ r. has_prefix r.prefix path ≡ false) rules
  pub answered : result ≡ ((true, none), rules)

shorter-All :
    {F L : Type 0} (r : PathRule F L) (rs : List (PathRule F L))
    → All (λ y. longer y r ≡ false) rs
    → All (λ y. length y.prefix ≤ length r.prefix) rs
shorter-All r [] a = tt
shorter-All r (y ∷ rs) a = (ground (arith, a.0), shorter-All r rs a.1)

module _ {F L : Type 0} (fresh : F → ℤ → L) (allow : L → ℕ → Bool × L) (max_ips : ℤ) where
  -- The answer of the rules behind one that does not match.
  abbrev past :
      PathRule F L
      → (Bool × Option Text) × List (PathRule F L)
      → (Bool × Option Text) × List (PathRule F L)
  past r result = (result.0, r ∷ result.1)

  ByRule-later :
      (r : PathRule F L) (rs : List (PathRule F L)) (ip path : Text) (now : ℕ)
      (result : (Bool × Option Text) × List (PathRule F L))
      → has_prefix r.prefix path ≡ false
      → ByRule fresh allow max_ips rs ip path now result
      → ByRule fresh allow max_ips (r ∷ rs) ip path now (past r result)
  ByRule-later r rs ip path now result h a = record {
    front = r ∷ a.front;
    rule = a.rule;
    back = a.back;
    placed = ap (λ l. r ∷ l) a.placed;
    matches = a.matches;
    first = (h, a.first);
    longest = a.longest;
    answered = ap (past r) a.answered;
  }

  -- Where the rules stand with the longer prefix first, `allowPath` answers by the first rule that
  -- matches the path, which no other that matches exceeds in length: with what the limiter of the
  -- address in that rule's table says, and it changes that table only. If no rule matches, it answers
  -- with a yes and changes nothing.
  pub allow_path-IsBest :
      (rules : List (PathRule F L)) (ip path : Text) (now : ℕ)
      → Sorted longer rules
      → Unlimited rules path (allow_path fresh allow max_ips rules ip path now)
        ⊎ ByRule fresh allow max_ips rules ip path now
            (allow_path fresh allow max_ips rules ip path now)
  unfolding allow_path ask
  allow_path-IsBest [] ip path now s = inl (record { unmatched = tt; answered = refl })
  allow_path-IsBest (r ∷ rs) ip path now s = elim (Bool-cases (has_prefix r.prefix path)) [
    | inl h ↦ rw h (
        inr (record {
          front = [];
          rule = r;
          back = rs;
          placed = refl;
          matches = h;
          first = tt;
          longest = shorter-All r rs s.0;
          answered = refl;
        }))
    | inr h ↦ rw h (elim (allow_path-IsBest rs ip path now s.1) [
      | inl u ↦ inl (record { unmatched = (h, u.unmatched); answered = ap (past r) u.answered })
      | inr a ↦ inr (ByRule-later r rs ip path now _ h a)
    ])
  ]

-- The rules that `newRateLimiter` compiles stand with the longer prefix first.
pub new_rules-Sorted :
    {F : Type 0} (L : Type 0) (positive : F → Bool) (service_rules : List (RateLimitRule F))
    → Sorted longer (new_rules {L = L} positive service_rules)
unfolding new_rules
new_rules-Sorted L positive service_rules =
    Sorted-sort longer longer-IsLess (compiled positive service_rules)
