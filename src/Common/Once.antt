-- ===== src/Common/Once.antt =====
-- Lists of keys and maps in which a key stands once at most, and their lengths under the updates.
use asty.Common.Tests.{Bool-cases}
use asty.Common.Lists.{length}
use asty.Common.Texts.{Text, same, same_iff}
use asty.Common.Map.{
  Map, is_some, lookup, insert, erase, has, del, lookup-insert, lookup-erase, has-del, has-append,
}
use Prim.Native.Nat.{ℕ, suc, ◌+◌}
use mathlib.Core.Path.{◌≡◌, refl}
use mathlib.Core.Bool.{Bool, true, false}
use mathlib.Core.Logic.{inl, inr}
use mathlib.Core.List.{List, [], ◌∷◌, ◌++◌}
use native.Mathlib.Omega.{arith}

abbrev pub Once : List Text → Type 0
Once [] = Unit
Once (k ∷ l) = (has k l ≡ false) × Once l

abbrev pub Keyed {ℓ} : {V : Type ℓ} → Map V → Type 0
Keyed [] = Unit
Keyed ((k, v) ∷ m) = (is_some (lookup k m) ≡ false) × Keyed m

abbrev pub one_if : Bool → ℕ
one_if true = 1
one_if false = 0

pub Once-del : (k : Text) (l : List Text) → Once l → Once (del k l)
unfolding del
Once-del k [] o = tt
Once-del k (j ∷ l) o = ground (arith, o.0, has-del k j l, Once-del k l o.1)

pub Once-append : (k : Text) (l : List Text) → has k l ≡ false → Once l → Once (l ++ k ∷ [])
unfolding has
Once-append k [] h o = (refl, tt)
Once-append k (j ∷ l) h o = (
  ground (arith, has-append j l (k ∷ []), o.0, same_iff j k, same_iff k j),
  Once-append k l (ground arith) o.1,
)

del_absent : (k : Text) (l : List Text) → has k l ≡ false → del k l ≡ l
unfolding del has
del_absent k [] h = refl
del_absent k (j ∷ l) h = ground (arith, del_absent k l)

pub length-del :
    (k : Text) (l : List Text) → Once l → length (del k l) + one_if (has k l) ≡ length l
unfolding del has
length-del k [] o = refl
length-del k (j ∷ l) o = elim (Bool-cases (same j k)) [
  | inl h ↦ rw h (ground (arith, del_absent k l, o.0, same_iff j k))
  | inr h ↦ rw h (ground (arith, length-del k l o.1))
]

module _ {ℓ} {V : Type ℓ} where
  pub Keyed-erase : (k : Text) (m : Map V) → Keyed m → Keyed (erase k m)
  unfolding erase
  Keyed-erase k [] o = tt
  Keyed-erase k ((j, v) ∷ m) o = ground (arith, o.0, lookup-erase k j m, Keyed-erase k m o.1)

  pub Keyed-insert : (k : Text) (v : V) (m : Map V) → Keyed m → Keyed (insert k v m)
  unfolding insert lookup
  Keyed-insert k v [] o = (refl, tt)
  Keyed-insert k v ((j, w) ∷ m) o =
      ground (arith, o.0, lookup-insert k j v m, same_iff j k, same_iff k j, Keyed-insert k v m o.1)

  erase_absent : (k : Text) (m : Map V) → is_some (lookup k m) ≡ false → erase k m ≡ m
  unfolding erase lookup
  erase_absent k [] h = refl
  erase_absent k ((j, v) ∷ m) h = ground (arith, erase_absent k m)

  pub length-erase :
      (k : Text) (m : Map V)
      → Keyed m
      → length (erase k m) + one_if (is_some (lookup k m)) ≡ length m
  unfolding erase lookup
  length-erase k [] o = refl
  length-erase k ((j, v) ∷ m) o = elim (Bool-cases (same j k)) [
    | inl h ↦ rw h (ground (arith, erase_absent k m, o.0, same_iff j k))
    | inr h ↦ rw h (ground (arith, length-erase k m o.1))
  ]

  pub length-insert :
      (k : Text) (v : V) (m : Map V)
      → length (insert k v m) + one_if (is_some (lookup k m)) ≡ suc (length m)
  unfolding insert lookup
  length-insert k v [] = refl
  length-insert k v ((j, w) ∷ m) = ground (arith, length-insert k v m)
