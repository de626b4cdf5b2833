-- ===== src/Metrics/Queries.antt =====
-- What the queries of the store answer.
use asty.Common.{
  ℕ, zero, suc, ◌-◌, ◌≤◌, ◌≡◌, refl, ap, sym, ◌∙◌, Bool, none, some, List, [], ◌∷◌, ◌++◌, reverse,
  Text, arith, keep, leb, length, take, drop, value_or, Bool-cases, Option-cases, subst, inl, inr,
}
use mathlib.Core.Option
use asty.Common.Int.{ℤ, pos_part}
use asty.Common.Map.{lookup-insert_self}
use asty.Ringbuf.{Ring, new, snapshot}
use asty.Ringbuf.Refine.{push_all}
use asty.Ringbuf.Snapshot.{snapshot-push_all}
use asty.Metrics.Store.{
  MetricPoint, Stamped, MetricStore, unix, freshness, events_capacity, rps_key, fresh_from,
  clean_old, points_of, add_rps, get_rps, latest_in, get_latest_rps, is_of, filtered, limit_of,
  get_events,
}

keep-append {ℓ} :
    {A : Type ℓ} (p : A → Bool) (xs ys : List A) → keep p (xs ++ ys) ≡ keep p xs ++ keep p ys
keep-append p [] ys = refl
keep-append p (x ∷ xs) ys = ground (arith, keep-append p xs ys)

none_some {ℓ κ} : {A : Type ℓ} {C : Type κ} (a : A) → none ≡ some a → C
none_some a e = cc

some_value {ℓ} : {A : Type ℓ} (d a b : A) → some a ≡ some b → a ≡ b
some_value d a b e = ap (value_or d) e

filtered-take :
    (service : Text) (n : ℕ) (es : List Stamped)
    → filtered service n es ≡ take n (keep (is_of service) es)
unfolding filtered
filtered-take service zero [] = refl
filtered-take service (suc n) [] = refl
filtered-take service zero (e ∷ es) = refl
filtered-take service (suc n) (e ∷ es) =
    ground (arith, filtered-take service n es, filtered-take service (suc n) es)

module _ {V : Type 0} where
  keep-fresh_from :
      (cutoff since : ℕ) (ps qs : List (MetricPoint V))
      → cutoff ≤ since
      → fresh_from cutoff ps ≡ some qs
      → keep (λ (p : MetricPoint V). leb since p.timestamp) qs
        ≡ keep (λ (p : MetricPoint V). leb since p.timestamp) ps
  unfolding fresh_from
  keep-fresh_from cutoff since [] qs h e = cc
  keep-fresh_from cutoff since (p ∷ ps) qs h e = elim (Bool-cases (leb cutoff p.timestamp)) [
    | inl young ↦
        ap (keep (λ (p : MetricPoint V). leb since p.timestamp))
          (sym (some_value [] (p ∷ ps) qs (rw (young, fresh_from) at e)))
    | inr old ↦
        ground (arith, old, h, keep-fresh_from cutoff since ps qs h (rw (old, fresh_from) at e))
  ]

  -- What is cleaned away is older than the cutoff.
  keep-clean_old :
      (cutoff since : ℕ) (ps : List (MetricPoint V))
      → cutoff ≤ since
      → keep (λ (p : MetricPoint V). leb since p.timestamp) (clean_old cutoff ps)
        ≡ keep (λ (p : MetricPoint V). leb since p.timestamp) ps
  unfolding clean_old
  keep-clean_old cutoff since ps h = elim (Option-cases (fresh_from cutoff ps)) [
    | inl n ↦ rw n refl
    | inr (qs, q) ↦ rw q (keep-fresh_from cutoff since ps qs h q)
  ]

  latest_in-last :
      (c : ℕ) (ps : List (MetricPoint V)) (p : MetricPoint V)
      → c ≤ p.timestamp
      → latest_in c (ps ++ p ∷ []) ≡ some p.value
  unfolding latest_in
  latest_in-last c [] p h = ground (arith, h)
  latest_in-last c (x ∷ ps) p h = rw (latest_in-last c ps p h) refl

  latest_in-fresh_from :
      (cutoff c : ℕ) (ps qs : List (MetricPoint V)) (p : MetricPoint V)
      → c ≤ p.timestamp
      → fresh_from cutoff (ps ++ p ∷ []) ≡ some qs
      → latest_in c qs ≡ some p.value
  unfolding fresh_from
  latest_in-fresh_from cutoff c [] qs p h e = elim (Bool-cases (leb cutoff p.timestamp)) [
    | inl young ↦
        subst (λ qs. latest_in c qs ≡ some p.value) (some_value [] (p ∷ []) qs (rw young at e))
          (latest_in-last c [] p h)
    | inr old ↦ none_some qs (rw old at e)
  ]
  latest_in-fresh_from cutoff c (x ∷ ps) qs p h e = elim (Bool-cases (leb cutoff x.timestamp)) [
    | inl young ↦
        subst (λ qs. latest_in c qs ≡ some p.value)
          (some_value [] (x ∷ (ps ++ p ∷ [])) qs (rw young at e)) (latest_in-last c (x ∷ ps) p h)
    | inr old ↦ latest_in-fresh_from cutoff c ps qs p h (rw old at e)
  ]

  latest_in-clean_old :
      (cutoff c : ℕ) (ps : List (MetricPoint V)) (p : MetricPoint V)
      → c ≤ p.timestamp
      → latest_in c (clean_old cutoff (ps ++ p ∷ [])) ≡ some p.value
  unfolding clean_old
  latest_in-clean_old cutoff c ps p h = elim (Option-cases (fresh_from cutoff (ps ++ p ∷ []))) [
    | inl n ↦ rw n (latest_in-last c ps p h)
    | inr (qs, q) ↦ rw q (latest_in-fresh_from cutoff c ps qs p h q)
  ]

  -- After a sample is added, a query from a time within the maximal age gives what it gave before,
  -- with the new sample if that time is not later, and the latest value is that of the sample for as
  -- long as it is fresh.
  pub add_rps_lem :
      (z v : V) (node : Text) (now since later : ℕ) (s : MetricStore V)
      → unix (now - s.max_age) ≤ unix since
      → unix (later - freshness) ≤ unix now
      → (get_rps node since (add_rps node v now s)
          ≡ get_rps node since s
            ++ keep
                (λ (p : MetricPoint V). leb (unix since) p.timestamp)
                (record { timestamp = unix now; value = v } ∷ []))
        × (get_latest_rps z node later (add_rps node v now s) ≡ v)
  unfolding add_rps get_rps get_latest_rps points_of
  add_rps_lem z v node now since later s h k =
      let p : MetricPoint V = record { timestamp = unix now; value = v } in
      let ps = points_of node s in
      let cutoff = unix (now - s.max_age) in
      let stored = lookup-insert_self (rps_key node) (clean_old cutoff (ps ++ p ∷ [])) s.rps in
      (
        ap (λ o. keep (λ (p : MetricPoint V). leb (unix since) p.timestamp) (value_or [] o)) stored
            ∙ (keep-clean_old cutoff (unix since) (ps ++ p ∷ []) h
                ∙ keep-append (λ (p : MetricPoint V). leb (unix since) p.timestamp) ps (p ∷ [])),
        ap (λ o. value_or z (latest_in (unix (later - freshness)) (value_or [] o))) stored
            ∙ ap (value_or z) (latest_in-clean_old cutoff (unix (later - freshness)) ps p k),
      )

  -- `GetEvents` on a store whose ring got the events `es` gives the newest of them first, of the
  -- service if one is asked for, up to the limit, 100 where it is not positive, from among the newest
  -- 1000.
  pub get_events_lem :
      (z : Stamped) (s : MetricStore V) (r : Ring Stamped) (es : List Stamped) (service : Text)
      (limit : ℤ)
      → new z events_capacity ≡ some r
      → s.events ≡ push_all r es
      → get_events service limit s
        ≡ some (
            take
              (limit_of limit)
              (keep (is_of service) (reverse (drop (length es - pos_part events_capacity) es))))
  unfolding get_events
  get_events_lem z s r es service limit e q =
      ap (λ r. Option.map (λ snap. filtered service (limit_of limit) (reverse snap)) (snapshot r)) q
      ∙ (ap (Option.map (λ snap. filtered service (limit_of limit) (reverse snap)))
            (snapshot-push_all z events_capacity r es e)
          ∙ ap some (
              filtered-take service (limit_of limit)
                (reverse (drop (length es - pos_part events_capacity) es))))
