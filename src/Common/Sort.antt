-- ===== src/Common/Sort.antt =====
-- `sort.Slice`: a sort by a `less` function. Go's sort is not stable; where `less` leaves a tie this
-- model keeps the order of the input, which is one of the results that Go allows.
use asty.Common.Tests.{if◌then◌else◌, Bool-cases}
use asty.Common.Lists.{length, In, All}
use Prim.Native.Nat.{suc}
use mathlib.Core.Path.{◌≡◌, refl, ap, ◌∙◌}
use mathlib.Core.Logic.{◌⊎◌, inl, inr}
use mathlib.Core.Bool.{Bool, true, false}
use mathlib.Core.List.{List, [], ◌∷◌, Perm}
use mathlib.Core.List.Perm
use native.Mathlib.Omega.{arith}

module _ {ℓ} {A : Type ℓ} where
  unfoldable pub place : (A → A → Bool) → A → List A → List A
  place less x [] = x ∷ []
  place less x (y ∷ ys) = let rest = place less x ys in if less y x then y ∷ rest else x ∷ y ∷ ys

  unfoldable pub sort : (A → A → Bool) → List A → List A
  sort less [] = []
  sort less (x ∷ xs) = place less x (sort less xs)

  -- Each item is not after any later one.
  abbrev pub Sorted : (A → A → Bool) → List A → Type ℓ
  Sorted less [] = Unit
  Sorted less (x ∷ xs) = All (λ y. less y x ≡ false) xs × Sorted less xs

-- What `sort.Slice` asks of `less`: a strict weak order.
pub record IsLess {ℓ} {A : Type ℓ} (less : A → A → Bool) : Type ℓ where
  pub asym : (x y : A) → less x y ≡ true → less y x ≡ false
  pub below : (x y z : A) → less y x ≡ false → less z y ≡ false → less z x ≡ false

module _ {ℓ} {A : Type ℓ} (less : A → A → Bool) where
  place-perm : (x : A) (xs : List A) → Perm (place less x xs) (x ∷ xs)
  unfolding place
  place-perm x [] = Perm.refl _
  place-perm x (y ∷ ys) = elim (Bool-cases (less y x)) [
    | inl h ↦ rw h (Perm.trans (Perm.cons y (place-perm x ys)) (Perm.swap x y ys))
    | inr h ↦ rw h (Perm.refl _)
  ]

  pub sort-perm : (xs : List A) → Perm (sort less xs) xs
  unfolding sort
  sort-perm [] = Perm.refl _
  sort-perm (x ∷ xs) = Perm.trans (place-perm x (sort less xs)) (Perm.cons x (sort-perm xs))

  length-place : (x : A) (xs : List A) → length (place less x xs) ≡ suc (length xs)
  unfolding place
  length-place x [] = refl
  length-place x (y ∷ ys) = ground (arith, length-place x ys)

  pub length-sort : (xs : List A) → length (sort less xs) ≡ length xs
  unfolding sort
  length-sort [] = refl
  length-sort (x ∷ xs) = length-place x (sort less xs) ∙ ap suc (length-sort xs)

  In-place : (a x : A) (xs : List A) → In a (place less x xs) → (x ≡ a) ⊎ In a xs
  unfolding place
  In-place a x [] m = m
  In-place a x (y ∷ ys) m = ground (arith, In-place a x ys)

  -- A sort brings in no new item.
  pub In-sort : (a : A) (xs : List A) → In a (sort less xs) → In a xs
  unfolding sort
  In-sort a [] m = m
  In-sort a (x ∷ xs) m = elim (In-place a x (sort less xs) m) [
    | inl e ↦ inl e
    | inr r ↦ inr (In-sort a xs r)
  ]

  place_head : (a x : A) (xs : List A) → (x ≡ a) ⊎ In a xs → In a (place less x xs)
  unfolding place
  place_head a x [] m = m
  place_head a x (y ∷ ys) m = ground (arith, place_head a x ys)

  -- A sort loses no item.
  pub In-sort_intro : (a : A) (xs : List A) → In a xs → In a (sort less xs)
  unfolding sort
  In-sort_intro a [] m = m
  In-sort_intro a (x ∷ xs) (inl e) = place_head a x (sort less xs) (inl e)
  In-sort_intro a (x ∷ xs) (inr m) = place_head a x (sort less xs) (inr (In-sort_intro a xs m))

  module _ (law : IsLess less) where
    All-above :
        (x y : A) (zs : List A)
        → less y x ≡ false
        → All (λ z. less z y ≡ false) zs
        → All (λ z. less z x ≡ false) zs
    All-above x y [] h a = tt
    All-above x y (z ∷ zs) h a = (law.below x y z h a.0, All-above x y zs h a.1)

    All-place :
        (w x : A) (ys : List A)
        → less x w ≡ false
        → All (λ z. less z w ≡ false) ys
        → All (λ z. less z w ≡ false) (place less x ys)
    unfolding place
    All-place w x [] h a = (h, tt)
    All-place w x (y ∷ ys) h a = ground (arith, All-place w x ys h a.1)

    pub Sorted-place : (x : A) (xs : List A) → Sorted less xs → Sorted less (place less x xs)
    unfolding place
    Sorted-place x [] s = (tt, tt)
    Sorted-place x (y ∷ ys) s = elim (Bool-cases (less y x)) [
      | inl h ↦ rw h (All-place y x ys (law.asym y x h) s.0, Sorted-place x ys s.1)
      | inr h ↦ rw h ((h, All-above x y ys h s.0), s)
    ]

    pub Sorted-sort : (xs : List A) → Sorted less (sort less xs)
    unfolding sort
    Sorted-sort [] = tt
    Sorted-sort (x ∷ xs) = Sorted-place x (sort less xs) (Sorted-sort xs)
