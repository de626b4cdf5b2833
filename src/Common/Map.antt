-- ===== src/Common/Map.antt =====
-- A Go map with string keys, as an association list. A key stands in it once at most: `insert`
-- overwrites in place, and `erase` removes every entry of the key.
use asty.Common.Tests.{if◌then◌else◌, Bool-cases}
use asty.Common.Texts.{Text, same, same_iff, same_refl}
use Prim.Native.Nat.{ℕ, ◌+◌}
use mathlib.Core.Path.{◌≡◌, refl, ap}
use mathlib.Core.Bool.{Bool, true, false, not, ◌&&◌, ◌||◌}
use mathlib.Core.Logic.{inl, inr}
use mathlib.Core.Option.{Option, none, some}
use mathlib.Core.List.{List, [], ◌∷◌, ◌++◌}
use native.Mathlib.Omega.{arith}

abbrev pub Map {ℓ} : Type ℓ → Type ℓ
Map V = List (Text × V)

abbrev pub is_some {ℓ} : {A : Type ℓ} → Option A → Bool
is_some none = false
is_some (some a) = true

module _ {ℓ} {V : Type ℓ} where
  unfoldable pub lookup : Text → Map V → Option V
  lookup k [] = none
  lookup k ((j, v) ∷ m) = if same j k then some v else lookup k m

  unfoldable pub insert : Text → V → Map V → Map V
  insert k v [] = (k, v) ∷ []
  insert k v ((j, w) ∷ m) =
      let rest = insert k v m in if same j k then (k, v) ∷ m else (j, w) ∷ rest

  unfoldable pub erase : Text → Map V → Map V
  erase k [] = []
  erase k ((j, w) ∷ m) = let rest = erase k m in if same j k then rest else (j, w) ∷ rest

  pub lookup-insert :
      (k j : Text) (v : V) (m : Map V)
      → lookup j (insert k v m) ≡ (if same k j then some v else lookup j m)
  unfolding lookup insert
  lookup-insert k j v [] = refl
  lookup-insert k j v ((i, w) ∷ m) =
      ground (arith, same_iff k j, same_iff i k, same_iff i j, lookup-insert k j v m)

  pub lookup-erase :
      (k j : Text) (m : Map V) → lookup j (erase k m) ≡ (if same k j then none else lookup j m)
  unfolding lookup erase
  lookup-erase k j [] = ground arith
  lookup-erase k j ((i, w) ∷ m) =
      ground (arith, same_iff k j, same_iff i k, same_iff i j, lookup-erase k j m)

  pub lookup-insert_self : (k : Text) (v : V) (m : Map V) → lookup k (insert k v m) ≡ some v
  lookup-insert_self k v m = rw (lookup-insert k k v m, same_refl k)

-- `m[k]` on a map of counters: a missing key reads as 0.
unfoldable pub count_of : Text → Map ℕ → ℕ
count_of k m = elim (lookup k m) [ none ↦ 0 | some n ↦ n ]

-- `m[k] += d`.
unfoldable pub bump : Text → ℕ → Map ℕ → Map ℕ
bump k d m = insert k (count_of k m + d) m

pub count_of-bump :
    (k j : Text) (d : ℕ) (m : Map ℕ)
    → count_of j (bump k d m) ≡ (if same k j then count_of j m + d else count_of j m)
unfolding count_of bump
count_of-bump k j d m = ground (arith, lookup-insert k j (count_of k m + d) m, same_iff k j)

-- A Go `map[string]struct{}` or `map[string]bool` used as a set: the list of its keys.
unfoldable pub has : Text → List Text → Bool
has k [] = false
has k (j ∷ s) = same j k || has k s

unfoldable pub put : Text → List Text → List Text
unfolding has
put k s = if has k s then s else k ∷ s

unfoldable pub del : Text → List Text → List Text
del k [] = []
del k (j ∷ s) = let rest = del k s in if same j k then rest else j ∷ rest

pub has-put : (k j : Text) (s : List Text) → has j (put k s) ≡ (same k j || has j s)
unfolding put has
has-put k j s = elim (Bool-cases (has k s)) [
  | inl h ↦ rw h (ground (arith, same_iff k j, ap (λ t. has t s)))
  | inr h ↦ rw h
]

pub has-del : (k j : Text) (s : List Text) → has j (del k s) ≡ (not (same k j) && has j s)
unfolding del has
has-del k j [] = ground arith
has-del k j (i ∷ s) = ground (arith, same_iff k j, same_iff i k, same_iff i j, has-del k j s)

pub has-append : (k : Text) (s t : List Text) → has k (s ++ t) ≡ (has k s || has k t)
unfolding has
has-append k [] t = refl
has-append k (j ∷ s) t = ground (arith, has-append k s t)
