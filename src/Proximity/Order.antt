-- ===== src/Proximity/Order.antt =====
-- The matrix is symmetric, and the datacenters come nearest first.
use asty.Common.{
  ◌≡◌, refl, ap, ◌∙◌, ◌≢◌, ◌↔◌, inl, inr, true, not, ◌||◌, ◌&&◌, Option, some, List, [], ◌∷◌, Text,
  same, same_iff, same_sound, if◌then◌else◌, keep, any, arith, Bool-cases, In, In-keep,
  In-keep_intro,
}
use asty.Common.Int.{ℤ}
use asty.Common.Map.{lookup, lookup-insert}
use asty.Common.Sort.{sort, Sorted, IsLess, Sorted-sort, In-sort, In-sort_intro}
use asty.Proximity.Matrix.{
  Matrix, set_latency, set_cell, row_or_empty, get_latency, by_latency, sort_datacenters,
  nearest_loop, closer,
}

abbrev cell : Matrix → Text → Text → Option ℤ
cell m x y = lookup y (row_or_empty (lookup x m))

cell-set_cell :
    (m : Matrix) (a b x y : Text) (v : ℤ)
    → cell (set_cell m a b v) x y ≡ (if same a x && same b y then some v else cell m x y)
unfolding set_cell
cell-set_cell m a b x y v = elim (Bool-cases (same a x)) [
  | inl h ↦
      ap (λ o. lookup y (row_or_empty o)) (lookup-insert a x _ m)
      ∙ rw h (
          unfold row_or_empty in
          lookup-insert b y v (row_or_empty (lookup a m))
          ∙ ap (λ k. if same b y then some v else cell m k y) (same_sound a x h))
  | inr h ↦ ap (λ o. lookup y (row_or_empty o)) (lookup-insert a x _ m) ∙ rw h
]

-- A latency that was set is read in both directions, and no other pair is changed by it.
pub get_latency-set_latency :
    (m : Matrix) (a b x y : Text) (v : ℤ)
    → a ≢ b
    → get_latency (set_latency m a b v) x y
      ≡ (if (same a x && same b y) || (same b x && same a y) then some v else get_latency m x y)
unfolding get_latency set_latency
get_latency-set_latency m a b x y v ne = ground (
  arith,
  cell-set_cell (set_cell m a b v) b a x y v,
  cell-set_cell m a b x y v,
  same_iff x y,
  same_iff a x,
  same_iff b y,
  same_iff b x,
  same_iff a y,
)

by_latency-IsLess : (m : Matrix) (source : Text) → IsLess (by_latency m source)
unfolding by_latency
by_latency-IsLess m source = record {
  asym = λ x y h. ground arith;
  below = λ x y z h k. ground arith;
}

-- The others come in the order of their latency from the source, where an unknown one counts as
-- 1000 ms; the source stands before them if it is listed, and no datacenter is lost or made up.
pub sort_datacenters_lem :
    (m : Matrix) (source dc : Text) (dcs : List Text)
    → ((others : List Text) × (sort_datacenters m source dcs
          ≡ (if any (λ d. same d source) dcs then source ∷ others else others))
        × Sorted (by_latency m source) others
        × (In dc others ↔ ((dc ≢ source) × In dc dcs)))
unfolding sort_datacenters
sort_datacenters_lem m source dc dcs = (
  sort (by_latency m source) (keep (λ dc. not (same dc source)) dcs),
  refl,
  Sorted-sort (by_latency m source) (by_latency-IsLess m source) _,
  (
    (λ h.
        let k = In-keep _ dc dcs (In-sort (by_latency m source) dc _ h) in
        ((λ e. ground (arith, k.0, same_iff dc source)), k.1)),
    (λ h.
        In-sort_intro (by_latency m source) dc _
          (In-keep_intro _ dc dcs (ground (arith, same_iff dc source, h.0)) h.1)),
  ),
)

-- A source that is among the candidates is its own nearest datacenter.
nearest_loop-source :
    (m : Matrix) (source first near : Text) (least : ℤ) (dcs : List Text)
    → any (λ dc. same dc source) dcs ≡ true
    → nearest_loop m source first near least dcs ≡ source
unfolding nearest_loop
nearest_loop-source m source first near least [] h = cc
nearest_loop-source m source first near least (dc ∷ dcs) h = ground (
  arith,
  same_iff dc source,
  nearest_loop-source m source first (closer near least dc (get_latency m source dc)).0
      (closer near least dc (get_latency m source dc)).1 dcs,
)
