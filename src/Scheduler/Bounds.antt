-- ===== src/Scheduler/Bounds.antt =====
-- How many nodes `PickCandidates` returns, and which.
use asty.Common.{
  ℕ, zero, suc, ◌≡◌, inl, inr, true, false, not, ◌&&◌, Option, none, some, List, [], ◌∷◌, Text,
  length, arith, In, min, In-keep,
}
use asty.Common.Int.{ℤ, pos_part}
use asty.Common.Map.{Map, bump, has}
use asty.Common.Sort.{sort, length-sort, In-sort}
use asty.Types.Node.{NodeInfo}
use asty.Types.Service.{Resources}
use asty.Scheduler.Helpers.{Config, datacenter_of, has_resources, target_copies}
use asty.Scheduler.Candidates.{candidate_less, picks, pick_first, pick_candidates, eligible_nodes}

pick_first-length :
    (n : ℕ) (w p : Map ℕ) (sorted : List NodeInfo)
    → ((f : List NodeInfo) (w' p' : Map ℕ) → length (picks n f w' p') ≡ min n (length f))
    → length (pick_first (picks n) w p sorted) ≡ min (suc n) (length sorted)
unfolding pick_first
pick_first-length n w p [] ih = omega arith
pick_first-length n w p (x ∷ rest) ih =
    omega (arith, ih rest (bump (datacenter_of x) 1 w) (bump x.id 1 p))

picks-length :
    (n : ℕ) (free : List NodeInfo) (w p : Map ℕ) → length (picks n free w p) ≡ min n (length free)
unfolding picks
picks-length zero free w p = omega arith
picks-length (suc n) free w p = omega (
  arith,
  pick_first-length n w p (sort (candidate_less w p) free) (picks-length n),
  length-sort (candidate_less w p) free,
)

-- As many as are needed, or as there are eligible nodes.
pub length-pick_candidates :
    (cfg : Config) (required : Resources) (healthy : List NodeInfo) (occupied : List Text)
    (dc_counts alloc_counts : Map ℕ) (needed : ℤ)
    → length (pick_candidates cfg required healthy occupied dc_counts alloc_counts needed)
      ≡ min (pos_part needed) (length (eligible_nodes cfg required healthy occupied))
unfolding pick_candidates
length-pick_candidates cfg required healthy occupied dc_counts alloc_counts needed = ground (
  arith,
  picks-length (pos_part needed) (eligible_nodes cfg required healthy occupied) dc_counts
      alloc_counts,
)

pick_first-In :
    (n : ℕ) (w p : Map ℕ) (a : NodeInfo) (sorted : List NodeInfo)
    → ((f : List NodeInfo) (w' p' : Map ℕ) → In a (picks n f w' p') → In a f)
    → In a (pick_first (picks n) w p sorted)
    → In a sorted
unfolding pick_first
pick_first-In n w p a [] ih m = m
pick_first-In n w p a (x ∷ rest) ih (inl e) = inl e
pick_first-In n w p a (x ∷ rest) ih (inr m) =
    inr (ih rest (bump (datacenter_of x) 1 w) (bump x.id 1 p) m)

picks-In :
    (n : ℕ) (free : List NodeInfo) (w p : Map ℕ) (a : NodeInfo)
    → In a (picks n free w p)
    → In a free
unfolding picks
picks-In zero free w p a m = absurd (m tt)
picks-In (suc n) free w p a m =
    In-sort (candidate_less w p) a free (
      pick_first-In n w p a (sort (candidate_less w p) free) (λ f w' p' k. picks-In n f w' p' a k)
        m)

-- A node that is picked is one of the healthy nodes, holds no copy yet and has the resources.
pub In-pick_candidates :
    (cfg : Config) (required : Resources) (healthy : List NodeInfo) (occupied : List Text)
    (dc_counts alloc_counts : Map ℕ) (needed : ℤ) (a : NodeInfo)
    → In a (pick_candidates cfg required healthy occupied dc_counts alloc_counts needed)
    → In a healthy × (has a.id occupied ≡ false) × (has_resources cfg a required ≡ true)
unfolding pick_candidates eligible_nodes
In-pick_candidates cfg required healthy occupied dc_counts alloc_counts needed a m =
    let k =
      In-keep (λ n. not (has n.id occupied) && has_resources cfg n required) a healthy (chosen m) in
    (k.1, ground (arith, k.0), ground (arith, k.0))
  where
    chosen :
        In a (pick_candidates cfg required healthy occupied dc_counts alloc_counts needed)
        → In a (eligible_nodes cfg required healthy occupied)
    chosen h = ground (
      arith,
      picks-In (pos_part needed) (eligible_nodes cfg required healthy occupied) dc_counts
          alloc_counts a,
      h,
    )

-- The target is the operator's override or else the configured minimum, cut to the range from 0 to
-- the number of healthy nodes.
pub target_copies_lem :
    (cfg : Config) (override : Option ℤ) (healthy : ℕ)
    → target_copies cfg override healthy
      ≡ min (pos_part (elim override as (λ o. ℤ) [ none ↦ cfg.min_copies | some n ↦ n ])) healthy
unfolding target_copies
target_copies_lem cfg override healthy = ground arith
