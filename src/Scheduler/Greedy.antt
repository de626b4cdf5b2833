-- ===== src/Scheduler/Greedy.antt =====
-- `PickCandidates` is the greedy choice by its comparator.
use asty.Common.{
  ℕ, zero, suc, ◌≡◌, true, false, ◌||◌, List, [], ◌∷◌, Text, before, ◌==◌, if◌then◌else◌, length,
  arith, before_irrefl, before_trans, before_total, All,
}
use asty.Common.Int.{ℤ, pos, leb_ℤ, negsuc, pos_part}
use asty.Common.Map.{Map, bump}
use asty.Common.Sort.{sort, Sorted, IsLess, Sorted-sort, sort-perm, length-sort}
use asty.Types.Node.{NodeInfo}
use asty.Types.Service.{Resources}
use asty.Scheduler.Helpers.{Config, datacenter_of}
use asty.Scheduler.Candidates.{candidate_less, picks, pick_first, pick_candidates, eligible_nodes}
use mathlib.Core.List.{Perm}

pub before_asym : (a b : Text) → before a b ≡ true → before b a ≡ false
before_asym a b h = ground (arith, before_trans a b a h, before_irrefl a)

pub before_below : (a b c : Text) → before b a ≡ false → before c b ≡ false → before c a ≡ false
before_below a b c h k = ground (
  arith,
  before_total a b,
  before_total b c,
  before_trans a b c,
  before_trans c a b,
  before_trans b c a,
  before_irrefl a,
  h,
  k,
)

candidate_less-IsLess : (working packing : Map ℕ) → IsLess (candidate_less working packing)
unfolding candidate_less
candidate_less-IsLess working packing = record {
  asym = λ x y h. ground (arith, before_asym x.id y.id);
  below = λ x y z h k. ground (arith, before_below x.id y.id z.id);
}

-- A choice of nodes one by one: each is not after any node that is left by the comparator, which
-- counts the nodes that were chosen before. The choice ends when enough are chosen or none is left.
pub data Greedy : ℕ → Map ℕ → Map ℕ → List NodeInfo → List NodeInfo → Type 0 where
  enough : {w p : Map ℕ} {free : List NodeInfo} → Greedy zero w p free []
  none_left : {n : ℕ} {w p : Map ℕ} → Greedy n w p [] []
  pick :
      {n : ℕ} {w p : Map ℕ} {free : List NodeInfo} {chosen : List NodeInfo} (x : NodeInfo)
      (rest : List NodeInfo)
      → Perm (x ∷ rest) free
      → All (λ y. candidate_less w p y x ≡ false) rest
      → Greedy n (bump (datacenter_of x) 1 w) (bump x.id 1 p) rest chosen
      → Greedy (suc n) w p free (x ∷ chosen)

pick_first-Greedy :
    (n : ℕ) (w p : Map ℕ) (free sorted : List NodeInfo)
    → ((f : List NodeInfo) (w' p' : Map ℕ) → Greedy n w' p' f (picks n f w' p'))
    → Perm sorted free
    → length sorted ≡ length free
    → Sorted (candidate_less w p) sorted
    → Greedy (suc n) w p free (pick_first (picks n) w p sorted)
unfolding pick_first
pick_first-Greedy n w p [] [] ih e l s = none_left
pick_first-Greedy n w p (x ∷ free) [] ih e l s = absurd (omega arith)
pick_first-Greedy n w p free (x ∷ rest) ih e l s =
    pick x rest e s.0 (ih rest (bump (datacenter_of x) 1 w) (bump x.id 1 p))

picks-Greedy : (n : ℕ) (free : List NodeInfo) (w p : Map ℕ) → Greedy n w p free (picks n free w p)
unfolding picks
picks-Greedy zero free w p = enough
picks-Greedy (suc n) free w p =
    pick_first-Greedy n w p free (sort (candidate_less w p) free) (picks-Greedy n)
      (sort-perm (candidate_less w p) free) (length-sort (candidate_less w p) free)
      (Sorted-sort (candidate_less w p) (candidate_less-IsLess w p) free)

some_left : (x : NodeInfo) (xs : List NodeInfo) → (length (x ∷ xs) == 0) ≡ false
some_left x xs = ground arith

-- The nodes that `PickCandidates` returns are such a choice among the eligible nodes, of as many as
-- are needed.
pub pick_candidates-Greedy :
    (cfg : Config) (required : Resources) (healthy : List NodeInfo) (occupied : List Text)
    (dc_counts alloc_counts : Map ℕ) (needed : ℤ)
    → Greedy
        (pos_part needed)
        dc_counts
        alloc_counts
        (eligible_nodes cfg required healthy occupied)
        (pick_candidates cfg required healthy occupied dc_counts alloc_counts needed)
unfolding pick_candidates
pick_candidates-Greedy cfg required healthy occupied dc_counts alloc_counts needed =
    guarded (eligible_nodes cfg required healthy occupied) needed
  where
    guarded :
        (free : List NodeInfo) (n : ℤ)
        → Greedy (pos_part n) dc_counts alloc_counts free (
            if length free == 0 || leb_ℤ n (pos 0)
            then []
            else picks (pos_part n) free dc_counts alloc_counts)
    guarded [] n = none_left
    guarded (x ∷ free) (negsuc k) =
        rw (some_left x free, (let e : leb_ℤ (negsuc k) (pos 0) ≡ true = ground arith in e)) enough
    guarded (x ∷ free) (pos zero) = rw (some_left x free) enough
    guarded (x ∷ free) (pos (suc k)) =
        rw (some_left x free, (let e : leb_ℤ (pos (suc k)) (pos 0) ≡ false = ground arith in e))
          (picks-Greedy (suc k) (x ∷ free) dc_counts alloc_counts)
