-- ===== src/Scheduler/Victims.antt =====
-- Which copies `PickRemovalVictims` gives up.
use asty.Common.{
  ℕ, zero, suc, ◌≡◌, subst, sym, Bool, true, false, ◌||◌, List, [], ◌∷◌, ◌++◌, Text, arith, ◌==◌,
  if◌then◌else◌, length, take, drop, In, All, All-In, In-take, In-drop, inl, inr, min, All-intro,
  length-take, take-append-drop,
}
use asty.Common.Int.{ℤ, pos, pos_part, leb_ℤ}
use asty.Common.Map.{Map}
use asty.Common.Sort.{sort, sort-perm, length-sort, In-sort, Sorted, IsLess, Sorted-sort}
use asty.Types.Allocation.{ServiceAllocation}
use asty.Types.Node.{NodeInfo}
use asty.Scheduler.Helpers.{pick_removal_victims, crowded_first, by_node, node_dcs, dc_counts}
use asty.Scheduler.Greedy.{before_asym, before_below}
use mathlib.Core.List.{Perm, append-nil}
use mathlib.Core.List.Perm

crowded_first-IsLess : (dcs : Map Text) (counts : Map ℕ) → IsLess (crowded_first dcs counts)
unfolding crowded_first
crowded_first-IsLess dcs counts = record {
  asym = λ x y h. ground (arith, before_asym x.node_id y.node_id);
  below = λ x y z h k. ground (arith, before_below x.node_id y.node_id z.node_id);
}

Sorted-split :
    {A : Type 0} (less : A → A → Bool) (n : ℕ) (v w : A) (xs : List A)
    → Sorted less xs
    → In v (take n xs)
    → In w (drop n xs)
    → less w v ≡ false
Sorted-split less zero v w xs s m k = absurd (m tt)
Sorted-split less (suc n) v w [] s m k = absurd (m tt)
Sorted-split less (suc n) v w (x ∷ xs) s (inl e) k =
    subst (λ y. less w y ≡ false) e (All-In _ w xs s.0 (In-drop n w xs k))
Sorted-split less (suc n) v w (x ∷ xs) s (inr m) k = Sorted-split less n v w xs s.1 m k

pub In-pick_removal_victims :
    (live : List ServiceAllocation) (nodes : List NodeInfo) (n : ℤ) (a : ServiceAllocation)
    → In a (pick_removal_victims live nodes n)
    → In a live
unfolding pick_removal_victims
In-pick_removal_victims live nodes n a m =
    let order = crowded_first (node_dcs [] nodes) (dc_counts (node_dcs [] nodes) [] live) in
    ground (
      arith,
      m,
      In-sort by_node a live,
      In-sort order a live,
      In-take (pos_part n) a (sort order live),
    )

-- The comparator that `PickRemovalVictims` uses on the copies `live`.
abbrev pub crowding :
    List ServiceAllocation → List NodeInfo → ServiceAllocation → ServiceAllocation → Bool
crowding live nodes = crowded_first (node_dcs [] nodes) (dc_counts (node_dcs [] nodes) [] live)

-- No copy that is kept comes before one that is given up.
abbrev pub Fair :
    List ServiceAllocation
    → List NodeInfo
    → List ServiceAllocation
    → List ServiceAllocation
    → Type 0
Fair live nodes victims kept = All (λ v. All (λ w. crowding live nodes w v ≡ false) kept) victims

-- `PickRemovalVictims` gives up as many of the live copies as are asked for, or all of them if there
-- are no more. The others are kept, and none of them comes before a victim in the order that has the
-- copies of the more crowded datacenters first.
pub pick_removal_victims_lem :
    (live : List ServiceAllocation) (nodes : List NodeInfo) (n : ℤ)
    → (length (pick_removal_victims live nodes n) ≡ min (pos_part n) (length live))
      × ((kept : List ServiceAllocation) × Perm (pick_removal_victims live nodes n ++ kept) live
          × Fair live nodes (pick_removal_victims live nodes n) kept)
unfolding pick_removal_victims
pick_removal_victims_lem live nodes n =
    let order = crowding live nodes in
    (
      ground (
        arith,
        length-sort by_node live,
        length-sort order live,
        length-take {0} (pos_part n) (sort order live),
      ),
      split (leb_ℤ n (pos 0) || length live == 0) (leb_ℤ (pos (length live)) n),
    )
  where
    split :
        (b c : Bool)
        → let victims =
            if b
            then []
            else if c
            then sort by_node live
            else take (pos_part n) (sort (crowding live nodes) live) in
          (kept : List ServiceAllocation) × Perm (victims ++ kept) live
          × Fair live nodes victims kept
    split true c = (live, Perm.refl _, tt)
    split false true = (
      [],
      subst (λ l. Perm l live) (sym (append-nil (sort by_node live))) (sort-perm by_node live),
      All-intro _ (sort by_node live) (λ v m. tt),
    )
    split false false =
        let order = crowding live nodes in
        let k = pos_part n in
        (
          drop k (sort order live),
          subst (λ l. Perm l live) (sym (take-append-drop k (sort order live)))
              (sort-perm order live),
          All-intro _ (take k (sort order live)) (λ v m.
              All-intro _ (drop k (sort order live)) (λ w o.
                Sorted-split order k v w (sort order live)
                  (Sorted-sort order (crowded_first-IsLess _ _) live) m o)),
        )
