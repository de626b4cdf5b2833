-- ===== src/Examples/Elections.antt =====
-- The lease of the leader in memory, and two nodes that campaign for it.
use asty.Common.{
  ℕ, suc, ◌≤◌, ◌<◌, ◌==◌, ◌≡◌, refl, ap, inl, inr, true, Option, none, some, [], ◌∷◌, if◌then◌else◌,
  arith, ==_iff,
}
use asty.Leader.Campaign.{lose, leader, Slot, Election, new_election, is_leader, attempt}
use asty.Leader.Cluster.{IsLease, Cluster, tries, start, later}
use asty.Leader.Fencing.{lease_unique, attempt-demotes}

-- The revision of the key, and the largest one so far.
abbrev Lease : Type 0
Lease = Option ℕ × ℕ

unfoldable take_free : Option ℕ → ℕ → Option ℕ × Lease
take_free none n = (some (suc n), (some (suc n), suc n))
take_free (some r) n = (none, (some r, n))

unfoldable renew : Option ℕ → ℕ → ℕ → Option ℕ × Lease
renew none r n = (none, (none, n))
renew (some q) r n = if q == r then (some (suc n), (some (suc n), suc n)) else (none, (some q, n))

abbrev slot : Slot Lease
unfolding take_free renew
slot = record {
  create = λ b. take_free b.0 b.1;
  update = λ r b. renew b.0 r b.1;
  delete = λ b. (true, (none, b.1));
}

abbrev held : Lease → Option ℕ
held b = b.0

abbrev issued : Lease → ℕ
issued b = b.1

take_free_ok :
    (h : Option ℕ) (n : ℕ) (b : Lease) (q : ℕ)
    → take_free h n ≡ (some q, b)
    → (h ≡ none) × (b.0 ≡ some q) × (n < q) × (b.1 ≡ q)
unfolding take_free
take_free_ok none n b q e = ground (arith, ap (λ r. r.0) e, ap (λ r. r.1.0) e, ap (λ r. r.1.1) e)
take_free_ok (some r) n b q e = absurd (ground (arith, ap (λ r. r.0) e))

take_free_failed :
    (h : Option ℕ) (n : ℕ) (b : Lease) → take_free h n ≡ (none, b) → (n ≤ b.1) × (b.0 ≡ h)
unfolding take_free
take_free_failed none n b e = absurd (ground (arith, ap (λ r. r.0) e))
take_free_failed (some r) n b e = ground (arith, ap (λ r. r.1.0) e, ap (λ r. r.1.1) e)

renew_ok :
    (h : Option ℕ) (r n : ℕ) (b : Lease) (q : ℕ)
    → renew h r n ≡ (some q, b)
    → (h ≡ some r) × (b.0 ≡ some q) × (n < q) × (b.1 ≡ q)
unfolding renew
renew_ok none r n b q e = absurd (ground (arith, ap (λ r. r.0) e))
renew_ok (some p) r n b q e =
    ground (arith, ==_iff p r, ap (λ r. r.0) e, ap (λ r. r.1.0) e, ap (λ r. r.1.1) e)

renew_failed :
    (h : Option ℕ) (r n : ℕ) (b : Lease) → renew h r n ≡ (none, b) → (n ≤ b.1) × (b.0 ≡ h)
unfolding renew
renew_failed none r n b e = ground (arith, ap (λ r. r.1.0) e, ap (λ r. r.1.1) e)
renew_failed (some p) r n b e =
    ground (arith, ap (λ r. r.0) e, ap (λ r. r.1.0) e, ap (λ r. r.1.1) e)

slot-IsLease : IsLease slot held issued
unfolding take_free slot
slot-IsLease = record {
  create_ok = λ b b' q e. take_free_ok b.0 b.1 b' q e;
  create_failed = λ b b' e. let (l, h) = take_free_failed b.0 b.1 b' e in (l, inl h);
  update_ok = λ r b b' q e. renew_ok b.0 r b.1 b' q e;
  update_failed = λ r b b' e. let (l, h) = renew_failed b.0 r b.1 b' e in (l, inl h);
  deleted = λ b. (omega arith, inr refl);
  deleted_ok = λ b. inr refl;
}

abbrev first_leads : Cluster Lease
first_leads = record {
  node = λ i. if 0 == i then record { state = leader; last_seq = 1 } else new_election;
  bucket = (some 1, 1);
}

abbrev fenced_out : Election
fenced_out = record { state = leader; last_seq = 1 }

lease_unique_example : ◌≡◌ {A = ℕ} 0 0
unfolding attempt new_election slot is_leader
lease_unique_example =
    lease_unique slot held issued slot-IsLease {c = first_leads} 0 0
      (later (start (none, 0)) (tries 0)) refl refl refl refl

-- The second node took the lease over after it expired.
attempt-demotes_example :
    ((attempt slot fenced_out (some 2, 2)).node ≡ new_election)
    × ((attempt slot fenced_out (some 2, 2)).notices ≡ lose ∷ [])
attempt-demotes_example =
    attempt-demotes slot held issued slot-IsLease fenced_out (some 2, 2) refl
      (λ e. ground (arith, e))
