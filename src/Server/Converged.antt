-- ===== src/Server/Converged.antt =====
-- The upkeep of the bus: when the streams are left alone, and which peers are evicted.
use asty.Common.{
  ℕ, ◌+◌, ◌≡◌, ◌≢◌, refl, ap, sym, ◌∙◌, ◌⊎◌, inl, inr, Bool, true, Option, none, some, List, [],
  ◌∷◌, Text, same, arith, In, Bool-cases, same_iff, subst, leb, value_or,
}
use asty.Common.Int.{ℤ, eqb_ℤ}
use asty.Server.Replicas.{
  KvBucket, Stream, ClusterConfig, target_replicas_for, set_stream_replicas, reconcile_to,
  reconcile_stream, reconcile_streams,
}
use asty.Server.Reaper.{
  MetaPeer, JszResponse, inactivity_threshold, is_gone, gone_names, is_authoritative,
  offline_meta_peers, evicted, reap_dead_peers, reap_found, leads, IsReported, by_leader, further,
}

eqb_ℤ_refl : (a : ℤ) → eqb_ℤ a a ≡ true
eqb_ℤ_refl a = ground arith

module _ {B : Type 0} (accept : Text → ℤ → B → Bool × B) (c : ClusterConfig)
    (services : List (List KvBucket))
    (all_accepted : (name : Text) (n : ℤ) (b : B) → (accept name n b).0 ≡ true) where
  name-reconcile_to :
      (o : Option ℤ) (s : Stream) (b : B) → (reconcile_to accept c services o s b).0.name ≡ s.name
  unfolding reconcile_to set_stream_replicas
  name-reconcile_to none s b = refl
  name-reconcile_to (some t) s b = ground (arith, all_accepted s.name t b)

  reconcile_to_again :
      (o : Option ℤ) (s : Stream) (b b' : B)
      → reconcile_to accept c services o (reconcile_to accept c services o s b).0 b'
        ≡ ((reconcile_to accept c services o s b).0, 0, b')
  unfolding reconcile_to set_stream_replicas
  reconcile_to_again none s b b' = refl
  reconcile_to_again (some t) s b b' = elim (Bool-cases (eqb_ℤ t s.replicas)) [
    | inl y ↦ rw (y, y) refl
    | inr n ↦ rw (n, all_accepted s.name t b, eqb_ℤ_refl t) refl
  ]

  reconcile_stream_again :
      (s : Stream) (size : ℤ) (b b' : B)
      → reconcile_stream accept c services (reconcile_stream accept c services s size b).0 size b'
        ≡ ((reconcile_stream accept c services s size b).0, 0, b')
  unfolding reconcile_stream
  reconcile_stream_again s size b b' =
      let o = target_replicas_for c services s.name size in
      let s₁ = (reconcile_to accept c services o s b).0 in
      ap (λ n. reconcile_to accept c services (target_replicas_for c services n size) s₁ b')
        (name-reconcile_to o s b)
      ∙ reconcile_to_again o s b b'

  -- Where the bus carries out every update, a second pass for the same size of the cluster asks for
  -- none and changes nothing.
  pub reconcile_streams-again :
      (ss : List Stream) (size : ℤ) (b b' : B)
      → reconcile_streams accept c services
          (reconcile_streams accept c services ss size b).0
          size
          b'
        ≡ ((reconcile_streams accept c services ss size b).0, 0, b')
  unfolding reconcile_streams
  reconcile_streams-again [] size b b' = refl
  reconcile_streams-again (s ∷ ss) size b b' =
      let r = reconcile_stream accept c services s size b in
      let rs = reconcile_streams accept c services ss size r.2 in
      ap
        (λ (x : Stream × ℕ × B).
          let y = reconcile_streams accept c services rs.0 size x.2 in (x.0 ∷ y.0, x.1 + y.1, y.2))
        (reconcile_stream_again s size b b')
      ∙ ap (λ (y : List Stream × ℕ × B). (r.0 ∷ y.0, 0 + y.1, y.2))
          (reconcile_streams-again ss size r.2 b')

gone_lem :
    (p : Text) (ps : List MetaPeer)
    → In p (gone_names ps)
    → (peer : MetaPeer) × In peer ps × (peer.name ≡ p) × (is_gone peer ≡ true)
unfolding gone_names
gone_lem p [] m = absurd (m tt)
gone_lem p (x ∷ ps) m = elim (Bool-cases (is_gone x)) [
  | inl y ↦ elim (here (rw y at m)) [
    | inl e ↦ (x, inl refl, e, y)
    | inr i ↦ let (peer, j, e, g) = gone_lem p ps i in (peer, inr j, e, g)
  ]
  | inr n ↦ let (peer, i, e, g) = gone_lem p ps (rw n at m) in (peer, inr i, e, g)
]
  where
    here : In p (x.name ∷ gone_names ps) → (x.name ≡ p) ⊎ In p (gone_names ps)
    here m = m

evicted_lem : (me p : Text) (ps : List Text) → In p (evicted me ps) → In p ps × (p ≢ me)
unfolding evicted
evicted_lem me p [] m = absurd (m tt)
evicted_lem me p (x ∷ ps) m = elim (Bool-cases (same x me)) [
  | inl y ↦ let (i, n) = evicted_lem me p ps (rw y at m) in (inr i, n)
  | inr n ↦ elim (here (rw n at m)) [
    | inl e ↦ (inl e, λ q. ground (arith, n, same_iff x me, e, q))
    | inr i ↦ let (j, k) = evicted_lem me p ps i in (inr j, k)
  ]
]
  where
    here : In p (x ∷ evicted me ps) → (x ≡ p) ⊎ In p (evicted me ps)
    here m = m

leads_lem : (l server : Text) → leads l server ≡ true → l ≡ server
unfolding leads
leads_lem [] server h = cc
leads_lem (c ∷ l) server h = ground (arith, h, same_iff (c ∷ l) server)

authoritative_lem : (r : JszResponse) → is_authoritative r ≡ true → r.leader ≡ r.server
unfolding is_authoritative
authoritative_lem r h = leads_lem r.leader r.server h

reason :
    (peer : MetaPeer)
    → is_gone peer ≡ true
    → (peer.offline ≡ true) ⊎ (leb inactivity_threshold peer.active ≡ true)
unfolding is_gone
reason peer h = ground (arith, h)

offline-IsReported :
    (p : Text) (rs : List (Option JszResponse)) (ps : List Text)
    → offline_meta_peers rs ≡ some ps
    → In p ps
    → IsReported p rs
unfolding offline_meta_peers
offline-IsReported p [] ps e m = cc
offline-IsReported p (none ∷ rs) ps e m = further (offline-IsReported p rs ps e m)
offline-IsReported p (some r ∷ rs) ps e m = elim (Bool-cases (is_authoritative r)) [
  | inr n ↦ further (offline-IsReported p rs ps (rw n at e) m)
  | inl y ↦
      let (peer, i, q, g) =
        gone_lem p r.replicas (subst (In p) (sym (ap (value_or []) (rw y at e))) m) in
      by_leader r peer (authoritative_lem r y) i q (reason peer g)
]

reap_found-IsReported :
    {B : Type 0} (remove : Text → B → Bool × B) (me p : Text) (replies : List (Option JszResponse))
    (o : Option (List Text)) (b : B)
    → offline_meta_peers replies ≡ o
    → In p (reap_found remove me o b).1
    → IsReported p replies × (p ≢ me)
unfolding reap_found
reap_found-IsReported remove me p replies none b e i = absurd (i tt)
reap_found-IsReported remove me p replies (some ps) b e i =
    let (j, n) = evicted_lem me p ps i in (offline-IsReported p replies ps e j, n)

-- A peer that the reaper asks to evict is not this node itself, and the leader of the bus's own group
-- reports it as offline, or silent for 15 seconds.
pub reap_dead_peers-IsReported :
    {B : Type 0} (remove : Text → B → Bool × B) (me p : Text) (replies : List (Option JszResponse))
    (b : B)
    → In p (reap_dead_peers remove me replies b).1
    → IsReported p replies × (p ≢ me)
unfolding reap_dead_peers
reap_dead_peers-IsReported remove me p replies b m =
    reap_found-IsReported remove me p replies (offline_meta_peers replies) b refl m
