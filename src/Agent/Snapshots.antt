-- ===== src/Agent/Snapshots.antt =====
-- The snapshot of the peers is a function of the set of their addresses.
use asty.Common.{
  ◌≡◌, refl, ap, sym, ◌∙◌, inl, inr, true, false, ◌||◌, List, [], ◌∷◌, Text, same, before, same_iff,
  same_refl, before_irrefl, before_trans, before_total, arith, Bool-cases, All, subst,
}
use asty.Common.Map.{has, put, has-put}
use asty.Common.Sort.{sort, place, Sorted, IsLess, Sorted-sort}
use asty.Common.Once.{Once}
use asty.Agent.Peers.{NatsPeers, values_of, put_all, all_peer_ips, peer_snapshot}

before_asym : (x y : Text) → before x y ≡ true → before y x ≡ false
before_asym x y h = elim (Bool-cases (before y x)) [
  | inr n ↦ n
  | inl t ↦ absurd (ground (arith, before_trans x y x h t, before_irrefl x))
]

before_below : (x y z : Text) → before y x ≡ false → before z y ≡ false → before z x ≡ false
before_below x y z h k = elim (Bool-cases (before y z)) [
  | inr n ↦ subst (λ t. before t x ≡ false) (before_total y z n k) h
  | inl m ↦ elim (Bool-cases (before z x)) [
    | inr n ↦ n
    | inl t ↦ absurd (ground (arith, before_trans y z x m t, h))
  ]
]

before-IsLess : IsLess before
before-IsLess = record { asym = before_asym; below = before_below }

has-place : (k x : Text) (xs : List Text) → has k (place before x xs) ≡ (same x k || has k xs)
unfolding place has
has-place k x [] = refl
has-place k x (y ∷ xs) = ground (arith, has-place k x xs)

has-sort : (k : Text) (xs : List Text) → has k (sort before xs) ≡ has k xs
unfolding sort has
has-sort k [] = refl
has-sort k (x ∷ xs) = ground (arith, has-place k x (sort before xs), has-sort k xs)

Once-place : (x : Text) (xs : List Text) → has x xs ≡ false → Once xs → Once (place before x xs)
unfolding place has
Once-place x [] h o = (refl, tt)
Once-place x (y ∷ xs) h o =
    ground (arith, h, o.0, Once-place x xs, o.1, has-place y x xs, same_iff x y, same_iff y x)

Once-sort : (xs : List Text) → Once xs → Once (sort before xs)
unfolding sort
Once-sort [] o = tt
Once-sort (x ∷ xs) o = Once-place x (sort before xs) (has-sort x xs ∙ o.0) (Once-sort xs o.1)

Once-put_all : (ips out : List Text) → Once out → Once (put_all ips out)
unfolding put_all put
Once-put_all [] out o = o
Once-put_all (ip ∷ ips) out o = Once-put_all ips (put ip out) (ground (arith, o))

has-put_all : (k : Text) (ips out : List Text) → has k (put_all ips out) ≡ (has k out || has k ips)
unfolding put_all has
has-put_all k [] out = ground arith
has-put_all k (ip ∷ ips) out = ground (arith, has-put_all k ips (put ip out), has-put ip k out)

-- Each address comes before all later ones.
abbrev pub Ascending : List Text → Type 0
Ascending [] = Unit
Ascending (x ∷ xs) = All (λ y. before x y ≡ true) xs × Ascending xs

above :
    (x : Text) (xs : List Text)
    → has x xs ≡ false
    → All (λ y. before y x ≡ false) xs
    → All (λ y. before x y ≡ true) xs
unfolding has
above x [] h a = tt
above x (y ∷ xs) h a = (
  elim (Bool-cases (before x y)) [
    | inl t ↦ t
    | inr n ↦ absurd (ground (arith, h, same_iff y x, before_total x y n a.0))
  ],
  above x xs (ground (arith, h)) a.1,
)

Ascending-intro : (xs : List Text) → Once xs → Sorted before xs → Ascending xs
Ascending-intro [] o s = tt
Ascending-intro (x ∷ xs) o s = (above x xs o.0 s.0, Ascending-intro xs o.1 s.1)

peer_snapshot-Ascending : (p : NatsPeers) → Ascending (peer_snapshot p)
unfolding peer_snapshot all_peer_ips
peer_snapshot-Ascending p =
    let once = Once-put_all p.bootstrap _ (Once-put_all (values_of p.by_node) [] tt) in
    Ascending-intro (peer_snapshot p) (Once-sort (all_peer_ips p) once)
      (Sorted-sort before before-IsLess (all_peer_ips p))

-- An address that is no later than the head of an ascending list, and is not the head, is not in it.
has-above : (k : Text) (xs : List Text) → All (λ y. before k y ≡ true) xs → has k xs ≡ false
unfolding has
has-above k [] a = refl
has-above k (y ∷ xs) a = ground (arith, a.0, same_iff y k, before_irrefl k, has-above k xs a.1)

All-later :
    (x y : Text) (xs : List Text)
    → before x y ≡ true
    → All (λ z. before y z ≡ true) xs
    → All (λ z. before x z ≡ true) xs
All-later x y [] h a = tt
All-later x y (z ∷ xs) h a = (before_trans x y z h a.0, All-later x y xs h a.1)

later_head :
    (x y : Text) (xs ys : List Text)
    → before x y ≡ true
    → All (λ z. before y z ≡ true) ys
    → has x (x ∷ xs) ≡ has x (y ∷ ys)
    → ⊥
unfolding has
later_head x y xs ys t b h =
    ground (
      arith,
      h,
      t,
      same_refl x,
      same_iff y x,
      before_irrefl x,
      has-above x ys (All-later x y ys t b),
    )

tails :
    (x : Text) (xs ys : List Text)
    → All (λ z. before x z ≡ true) xs
    → All (λ z. before x z ≡ true) ys
    → (k : Text) → has k (x ∷ xs) ≡ has k (x ∷ ys)
    → has k xs ≡ has k ys
unfolding has
tails x xs ys a b k h = elim (Bool-cases (same x k)) [
  | inr n ↦ ground (arith, n, h)
  | inl t ↦
      subst (λ j. has j xs ≡ has j ys) (ground (arith, t, same_iff x k))
        (has-above x xs a ∙ sym (has-above x ys b))
]

-- The heads of two ascending lists with the same addresses are the same.
heads :
    (x y : Text) (xs ys : List Text)
    → All (λ z. before x z ≡ true) xs
    → All (λ z. before y z ≡ true) ys
    → ((k : Text) → has k (x ∷ xs) ≡ has k (y ∷ ys))
    → x ≡ y
unfolding has
heads x y xs ys a b h = elim (Bool-cases (before x y)) [
  | inl t ↦ absurd (later_head x y xs ys t b (h x))
  | inr n ↦ elim (Bool-cases (before y x)) [
    | inl t ↦ absurd (later_head y x ys xs t a (sym (h y)))
    | inr m ↦ before_total x y n m
  ]
]

Ascending-same_has :
    (xs ys : List Text) → Ascending xs → Ascending ys → ((k : Text) → has k xs ≡ has k ys) → xs ≡ ys
unfolding has
Ascending-same_has [] [] a b h = refl
Ascending-same_has [] (y ∷ ys) a b h = absurd (ground (arith, h y, same_refl y))
Ascending-same_has (x ∷ xs) [] a b h = absurd (ground (arith, h x, same_refl x))
Ascending-same_has (x ∷ xs) (y ∷ ys) a b h =
    let e = heads x y xs ys a.0 b.0 h in
    let b' = subst (λ t. All (λ z. before t z ≡ true) ys) (sym e) b.0 in
    subst (λ t. x ∷ xs ≡ t ∷ ys) e
      (ap (λ zs. x ∷ zs)
        (Ascending-same_has xs ys a.1 b.1
          (λ k. tails x xs ys a.0 b' k (h k ∙ ap (λ t. has k (t ∷ ys)) (sym e)))))

has-peer_snapshot :
    (p : NatsPeers) (ip : Text)
    → has ip (peer_snapshot p) ≡ (has ip (values_of p.by_node) || has ip p.bootstrap)
unfolding peer_snapshot all_peer_ips has
has-peer_snapshot p ip =
    has-sort ip (all_peer_ips p)
    ∙ (has-put_all ip p.bootstrap (put_all (values_of p.by_node) [])
        ∙ ap (λ t. t || has ip p.bootstrap) (has-put_all ip (values_of p.by_node) []))

-- The snapshot ascends without a repetition, it has the addresses of the records and the hints, and
-- two states with the same addresses have the same snapshot, however they came about.
pub peer_snapshot_lem :
    (p q : NatsPeers)
    → Ascending (peer_snapshot p)
      × ((ip : Text)
          → has ip (peer_snapshot p) ≡ (has ip (values_of p.by_node) || has ip p.bootstrap))
      × (((ip : Text)
            → (has ip (values_of p.by_node) || has ip p.bootstrap)
              ≡ (has ip (values_of q.by_node) || has ip q.bootstrap))
          → peer_snapshot p ≡ peer_snapshot q)
peer_snapshot_lem p q = (
  peer_snapshot-Ascending p,
  has-peer_snapshot p,
  λ h.
      Ascending-same_has (peer_snapshot p) (peer_snapshot q) (peer_snapshot-Ascending p)
        (peer_snapshot-Ascending q)
        (λ ip. has-peer_snapshot p ip ∙ (h ip ∙ sym (has-peer_snapshot q ip))),
)
