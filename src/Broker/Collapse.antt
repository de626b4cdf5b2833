-- ===== src/Broker/Collapse.antt =====
-- When a node collapses, and what is done to its streams.
use asty.Common.{
  ◌≡◌, ◌≢◌, ◌↔◌, refl, ◌∙◌, Bool, true, false, Option, none, some, List, [], ◌∷◌, Text, All, arith,
  same, same_iff, if◌then◌else◌,
}
use asty.Common.Int.{pos, eqb_ℤ}
use asty.Agent.Peers.{all_peer_ips}
use asty.Broker.Files.{Host, IsHost}
use asty.Broker.Streams.{
  Failure, unread, no_sum, unwritten, sum_unwritten, meta_sum, sum_path, sum_written, meta_written,
  write_both, edit_meta, force_stream_meta_to_r1,
}
use asty.Broker.State.{Node, Setup}
use asty.Broker.Announce.{clustered_now, answers, has_any_reachable_peer, handle_quorum_lost}

module _ {B : Type 0} (s : Setup B) where
  answers_iff :
      (ips : List Text) (b : B)
      → (answers s ips b ≡ false) ↔ All (λ ip. s.host.dial ip s.config.cluster_port b ≡ false) ips
  unfolding answers
  answers_iff [] b = (λ h. tt, λ h. refl)
  answers_iff (ip ∷ ips) b =
      let rest = answers_iff ips b in
      (λ h. (ground (arith, h), rest.0 (ground (arith, h))), λ a. ground (arith, a.0, rest.1 a.1))

  lost_parts :
      (n : Node) (b : B)
      → n.solo ≡ false
      → ((handle_quorum_lost s n b).solo ≡ true)
        ↔ ((clustered_now s b ≡ true) × (has_any_reachable_peer s n.peers b ≡ false))
  unfolding handle_quorum_lost asty.Broker.State.signal_nats_solo
  lost_parts n b e = (λ h. ground (arith, h, e), λ h. ground (arith, h.0, h.1))

  -- On a node whose cluster port is set and for which no collapse is waiting, a lost quorum makes one
  -- wait exactly when its configuration is clustered and none of the peers it knows, from records or
  -- hints and however many they are, answers on the cluster port.
  pub handle_quorum_lost_iff :
      (n : Node) (b : B)
      → eqb_ℤ s.config.cluster_port (pos 0) ≡ false
      → n.solo ≡ false
      → ((handle_quorum_lost s n b).solo ≡ true) ↔ (
          (clustered_now s b ≡ true)
          × All (λ ip. s.host.dial ip s.config.cluster_port b ≡ false) (all_peer_ips n.peers))
  unfolding has_any_reachable_peer
  handle_quorum_lost_iff n b port e =
      let parts = lost_parts n b e in
      let known = answers_iff (all_peer_ips n.peers) b in
      (
        λ h. ((parts.0 h).0, known.0 (ground (arith, port, (parts.0 h).1))),
        λ h. parts.1 (h.0, ground (arith, port, known.1 h.1)),
      )

module _ {B : Type 0} (h : Host B) (replace : Text → Text) (hash : Text → Text → Option Text) where
  -- The file of a stream that is not as the replacement leaves it.
  pub IsStale : Text → B → Type 0
  IsStale path b = (c : Text) × (h.read path b ≡ some c) × (replace c ≢ c)

  -- The file is the replaced one, with its sum, which is not empty, beside it.
  pub IsForced : Text → Text → Text → B → Type 0
  IsForced path stream c b =
      (h.read path b ≡ some (replace c))
      × (h.read (sum_path h replace hash path) b
          ≡ some (meta_sum h replace hash stream (replace c)))
      × (meta_sum h replace hash stream (replace c) ≢ [])

  -- What the edit of a stream's file comes to.
  pub Edited : Text → Text → B → (Bool × Option Failure) × B → Type 0
  Edited path stream b ((false, none), b') =
      (b' ≡ b) × ((c : Text) × (h.read path b ≡ some c) × (replace c ≡ c))
  Edited path stream b ((true, none), b') =
      (c : Text) × (h.read path b ≡ some c) × IsForced path stream c b'
  Edited path stream b ((false, some unread), b') = (b' ≡ b) × (h.read path b ≡ none)
  Edited path stream b ((false, some no_sum), b') = (b' ≡ b) × IsStale path b
  Edited path stream b ((false, some unwritten), b') = IsStale path b
  Edited path stream b ((true, some sum_unwritten), b') = IsStale path b
  Edited path stream b ((_, some _), b') = ⊥

module _ {B : Type 0} (h : Host B) (replace : Text → Text) (hash : Text → Text → Option Text)
    (conf_path : Text) (mode : B → Bool) (law : IsHost h conf_path mode) where
  sum_written-Edited :
      (path stream c : Text) (b b₁ : B) (r : Bool × B)
      → same (sum_path h replace hash path) path ≡ false
      → h.read path b ≡ some c
      → replace c ≢ c
      → meta_sum h replace hash stream (replace c) ≢ []
      → h.read path b₁ ≡ some (replace c)
      → h.write (sum_path h replace hash path) (meta_sum h replace hash stream (replace c)) b₁ ≡ r
      → Edited h replace hash path stream b (sum_written h replace hash r)
  unfolding Edited sum_written IsForced IsStale
  sum_written-Edited path stream c b b₁ (false, b₂) apart rd st sum e w = (c, rd, st)
  sum_written-Edited path stream c b b₁ (true, b₂) apart rd st sum e w =
      (c, rd, (law.write_other _ _ b₁ b₂ w path apart ∙ e, law.write_own _ _ b₁ b₂ w, sum))

  meta_written-Edited :
      (path stream c : Text) (b : B) (r : Bool × B)
      → same (sum_path h replace hash path) path ≡ false
      → h.read path b ≡ some c
      → replace c ≢ c
      → meta_sum h replace hash stream (replace c) ≢ []
      → h.write path (replace c) b ≡ r
      → Edited h replace hash path stream b
          (meta_written h replace hash path (meta_sum h replace hash stream (replace c)) r)
  unfolding Edited meta_written IsStale
  meta_written-Edited path stream c b (false, b₁) apart rd st sum w = (c, rd, st)
  meta_written-Edited path stream c b (true, b₁) apart rd st sum w =
      sum_written-Edited path stream c b b₁ _ apart rd st sum (law.write_own _ _ b b₁ w) refl

  tested-Edited :
      (path stream c : Text) (b : B) (fresh blank : Bool)
      → same (sum_path h replace hash path) path ≡ false
      → h.read path b ≡ some c
      → same (replace c) c ≡ fresh
      → same (meta_sum h replace hash stream (replace c)) [] ≡ blank
      → Edited h replace hash path stream b (
          if fresh
          then ((false, none), b)
          else if blank
          then ((false, some no_sum), b)
          else write_both h replace hash path
              (replace c)
              (meta_sum h replace hash stream (replace c))
              b)
  unfolding Edited write_both IsStale
  tested-Edited path stream c b true blank apart rd f k =
      (refl, (c, rd, (same_iff (replace c) c).0 f))
  tested-Edited path stream c b false true apart rd f k =
      (refl, (c, rd, λ e. ground (arith, f, (same_iff (replace c) c).1 e)))
  tested-Edited path stream c b false false apart rd f k =
      meta_written-Edited path stream c b _ apart rd
        (λ e. ground (arith, f, (same_iff (replace c) c).1 e))
        (λ e. ground (arith, k, (same_iff (meta_sum h replace hash stream (replace c)) []).1 e))
        refl

  read-Edited :
      (path stream : Text) (b : B) (o : Option Text)
      → same (sum_path h replace hash path) path ≡ false
      → h.read path b ≡ o
      → Edited h replace hash path stream b (elim o [
        | none ↦ ((false, some unread), b)
        | some content ↦ edit_meta h replace hash path stream content b
      ])
  unfolding Edited edit_meta
  read-Edited path stream b none apart rd = (refl, rd)
  read-Edited path stream b (some c) apart rd = tested-Edited path stream c b _ _ apart rd refl refl

  -- For a file that is not its own sum: without an error and without a change the host is as before and
  -- the file is as the replacement leaves it; with a change the file is the replaced one, and its sum
  -- stands beside it; with an error before the first write the host is as before; with an error of a
  -- write the file was one that the replacement changes.
  pub force_stream_meta_to_r1-Edited :
      (path stream : Text) (b : B)
      → same (sum_path h replace hash path) path ≡ false
      → Edited h replace hash path stream b (force_stream_meta_to_r1 h replace hash path stream b)
  unfolding force_stream_meta_to_r1
  force_stream_meta_to_r1-Edited path stream b apart = read-Edited path stream b _ apart refl
