-- ===== src/Leader/Fencing.antt =====
-- No two nodes hold the lease: their revisions differ.
use asty.Common.{
  ℕ, ◌≤◌, ◌<◌, ◌≡◌, ◌≢◌, refl, ap, sym, ◌∙◌, ◌⊎◌, inl, inr, Bool, true, false, Option, none, some,
  [], ◌∷◌, arith, value_or, subst, ==_iff,
}
use asty.Leader.Campaign.{
  lose, State, unknown, candidate, leader, Slot, Election, new_election, is_leader, claimed,
  refreshed, campaign_for_leadership, maintain_leadership, attempt, attempt_in, step_down,
  step_down_if, is_leading,
}
use asty.Leader.Cluster.{
  IsLease, Cluster, put_node, Step, tries, stops, expires, Reach, start, later,
}

-- The leaders' revisions were issued, and no two leaders have the same.
pub record IsFenced {B : Type 0} (issued : B → ℕ) (c : Cluster B) : Type 0 where
  pub old : (i : ℕ) → is_leader (c.node i) ≡ true → (c.node i).last_seq ≤ issued c.bucket
  pub apart :
      (i j : ℕ)
      → is_leader (c.node i) ≡ true
      → is_leader (c.node j) ≡ true
      → (c.node i).last_seq ≡ (c.node j).last_seq
      → i ≡ j

-- A step of one node: it is no leader after it, or it has a revision that is new.
record Moves (before after : Election) (n m : ℕ) : Type 0 where
  grown : n ≤ m
  fresh : (is_leader after ≡ false) ⊎ ((n < after.last_seq) × (after.last_seq ≤ m))

module _ {B : Type 0} (s : Slot B) (held : B → Option ℕ) (issued : B → ℕ)
    (law : IsLease s held issued) where
  put_node-IsFenced :
      (i : ℕ) (e : Election) (b : B) (c : Cluster B)
      → Moves (c.node i) e (issued c.bucket) (issued b)
      → IsFenced issued c
      → IsFenced issued (record { node = put_node i e c.node; bucket = b })
  put_node-IsFenced i e b c mv f = record {
    old = λ j h. ground (arith, mv.grown, mv.fresh, f.old j, ==_iff i j);
    apart = λ j k h g q.
        ground (arith, mv.grown, mv.fresh, f.old j, f.old k, f.apart j k, ==_iff i j, ==_iff i k);
  }

  claimed-Moves :
      (e : Election) (b : B) (r : Option ℕ × B)
      → is_leader e ≡ false
      → s.create b ≡ r
      → Moves e (claimed e r).node (issued b) (issued (claimed e r).bucket)
  unfolding claimed is_leader
  claimed-Moves e b (none, b') h p = record { grown = (law.create_failed b b' p).0; fresh = inl h }
  claimed-Moves e b (some q, b') h p =
      let (free, taken, above, now) = law.create_ok b b' q p in
      record { grown = omega arith; fresh = inr (above, omega arith) }

  refreshed-Moves :
      (e : Election) (b : B) (r : Option ℕ × B)
      → s.update e.last_seq b ≡ r
      → Moves e (refreshed e r).node (issued b) (issued (refreshed e r).bucket)
  unfolding refreshed is_leader
  refreshed-Moves e b (none, b') p = record {
    grown = (law.update_failed e.last_seq b b' p).0;
    fresh = inl refl;
  }
  refreshed-Moves e b (some q, b') p =
      let (free, taken, above, now) = law.update_ok e.last_seq b b' q p in
      record { grown = omega arith; fresh = inr (above, omega arith) }

  attempt_in-Moves :
      (t : State) (e : Election) (b : B)
      → e.state ≡ t
      → Moves e (attempt_in s t e b).node (issued b) (issued (attempt_in s t e b).bucket)
  unfolding attempt_in campaign_for_leadership maintain_leadership is_leader
  attempt_in-Moves unknown e b p = claimed-Moves e b (s.create b) (ap is_leading p) refl
  attempt_in-Moves candidate e b p = claimed-Moves e b (s.create b) (ap is_leading p) refl
  attempt_in-Moves leader e b p = refreshed-Moves e b (s.update e.last_seq b) refl

  step_down_if-Moves :
      (w : Bool) (e : Election) (b : B)
      → Moves e (step_down_if s w b).node (issued b) (issued (step_down_if s w b).bucket)
  unfolding step_down_if new_election is_leader is_leading
  step_down_if-Moves false e b = record { grown = omega arith; fresh = inl refl }
  step_down_if-Moves true e b = record { grown = (law.deleted b).0; fresh = inl refl }

  Step-IsFenced : {c d : Cluster B} → Step s held issued c d → IsFenced issued c → IsFenced issued d
  unfolding attempt step_down
  Step-IsFenced {c} (tries i) f =
      put_node-IsFenced i _ _ c (attempt_in-Moves (c.node i).state (c.node i) c.bucket refl) f
  Step-IsFenced {c} (stops i) f =
      put_node-IsFenced i _ _ c (step_down_if-Moves (is_leader (c.node i)) (c.node i) c.bucket) f
  Step-IsFenced {c} (expires b h n) f = record {
    old = λ i l. omega (arith, f.old i l, n);
    apart = f.apart;
  }

  pub Reach-IsFenced : {c : Cluster B} → Reach s held issued c → IsFenced issued c
  unfolding new_election is_leader is_leading
  Reach-IsFenced (start b) = record { old = λ i h. cc; apart = λ i j h g q. cc }
  Reach-IsFenced (later r st) = Step-IsFenced st (Reach-IsFenced r)

  -- In every reachable state of a cluster at most one of the nodes that take themselves for the leader
  -- has the revision of the lease, so at most one can refresh it.
  pub lease_unique :
      {c : Cluster B} (i j : ℕ)
      → Reach s held issued c
      → is_leader (c.node i) ≡ true
      → is_leader (c.node j) ≡ true
      → held c.bucket ≡ some (c.node i).last_seq
      → held c.bucket ≡ some (c.node j).last_seq
      → i ≡ j
  lease_unique i j r h g k l = (Reach-IsFenced r).apart i j h g (ap (value_or 0) (sym k ∙ l))

  refused :
      (e : Election) (b : B) (r : Option ℕ × B)
      → s.update e.last_seq b ≡ r
      → held b ≢ some e.last_seq
      → ((refreshed e r).node ≡ new_election) × ((refreshed e r).notices ≡ lose ∷ [])
  unfolding refreshed new_election
  refused e b (none, b') p h = (refl, refl)
  refused e b (some q, b') p h = absurd (h (law.update_ok e.last_seq b b' q p).0)

  -- A leader that no longer has the revision of the lease takes itself for a candidate after its next
  -- turn, with no revision, and its callback for the loss is run.
  pub attempt-demotes :
      (e : Election) (b : B)
      → e.state ≡ leader
      → held b ≢ some e.last_seq
      → ((attempt s e b).node ≡ new_election) × ((attempt s e b).notices ≡ lose ∷ [])
  unfolding attempt attempt_in maintain_leadership
  attempt-demotes e b p h =
      subst
        (λ t.
          ((attempt_in s t e b).node ≡ new_election) × ((attempt_in s t e b).notices ≡ lose ∷ []))
        (sym p) (refused e b (s.update e.last_seq b) refl h)
