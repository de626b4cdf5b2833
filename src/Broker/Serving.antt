-- ===== src/Broker/Serving.antt =====
-- The configuration file and the mode of the broker after each turn of the supervisor.
use asty.Common.{
  ◌≡◌, refl, sym, ◌∙◌, ap, subst, ◌⊎◌, inl, inr, Bool, true, false, Option, none, some, List, Text,
  same_iff, arith,
}
use asty.Agent.Peers.{peer_snapshot}
use asty.Broker.Conf.{is_clustered}
use asty.Broker.Files.{IsHost}
use asty.Broker.State.{Node, Setup}
use asty.Broker.Supervisor.{
  Turn, stop_signal, restart_signal, solo_signal, child_exit, watching, conf_of, render_nats_conf,
  boot_with, bootstrap_nats, hot_reload_with, reload_from, try_hot_reload, solo_node,
  perform_solo_transition, watched, restarted, supervise_nats, solo_disk,
}

module _ {B : Type 0} (s : Setup B) (mode : B → Bool) (law : IsHost s.host s.conf_path mode) where
  -- The broker runs in the mode of its configuration file.
  abbrev pub Agrees : B → Type 0
  Agrees b = (c : Text) → s.host.read s.conf_path b ≡ some c → mode b ≡ is_clustered c

  -- The configuration file is that of the given peers, and the broker runs in its mode.
  pub record Serves (peers : List Text) (b : B) : Type 0 where
    pub ip : Text
    pub keep : Bool
    pub conf : s.host.read s.conf_path b ≡ some (conf_of s ip peers keep)
    pub in_mode : mode b ≡ is_clustered (conf_of s ip peers keep)

  pub Serves-Agrees : (peers : List Text) (b : B) → Serves peers b → Agrees b
  Serves-Agrees peers b v c e = v.in_mode ∙ ap is_clustered (ground (arith, v.conf, e))

  written-Serves :
      (ip : Text) (peers : List Text) (keep : Bool) (b b' : B)
      → s.host.read s.conf_path b ≡ some (conf_of s ip peers keep)
      → s.host.spawn b ≡ (true, b')
      → Serves peers b'
  written-Serves ip peers keep b b' e p = record {
    ip = ip;
    keep = keep;
    conf = ap (λ r. s.host.read s.conf_path r.1) (sym p) ∙ law.spawn_file b s.conf_path ∙ e;
    in_mode = law.spawn_mode b b' _ p e;
  }

  boot_with-Serves :
      (ip : Text) (peers : List Text) (keep : Bool) (b b' : B) (r : Bool × B)
      → s.host.write s.conf_path (conf_of s ip peers keep) b ≡ r
      → boot_with s r ≡ (true, b')
      → Serves peers b'
  unfolding boot_with
  boot_with-Serves ip peers keep b b' (false, b₁) w p = ground arith
  boot_with-Serves ip peers keep b b' (true, b₁) w p =
      written-Serves ip peers keep b₁ b' (law.write_own _ _ b b₁ w) p

  bootstrap_nats-Serves :
      (n : Node) (b b' : B) → bootstrap_nats s n b ≡ (true, b') → Serves (peer_snapshot n.peers) b'
  unfolding bootstrap_nats render_nats_conf
  bootstrap_nats-Serves n b b' p =
      boot_with-Serves (s.host.resolve_ip b) (peer_snapshot n.peers) false b b' _ refl
        (ground arith)

  hot_reload_with-Serves :
      (ip : Text) (peers : List Text) (keep : Bool) (b b' : B) (r : Bool × B)
      → mode b ≡ is_clustered (conf_of s ip peers keep)
      → s.host.write s.conf_path (conf_of s ip peers keep) b ≡ r
      → hot_reload_with s r ≡ (true, b')
      → Serves peers b'
  unfolding hot_reload_with
  hot_reload_with-Serves ip peers keep b b' (false, b₁) m w p = ground arith
  hot_reload_with-Serves ip peers keep b b' (true, b₁) m w p = record {
    ip = ip;
    keep = keep;
    conf =
        ap (λ r. s.host.read s.conf_path r.1) (sym p)
        ∙ law.hang_up_file b₁ s.conf_path
        ∙ law.write_own _ _ b b₁ w;
    in_mode = law.hang_up_mode b₁ b' p ∙ ap (λ r. mode r.1) (sym w) ∙ law.write_mode _ _ b ∙ m;
  }

  -- A reload that succeeds found the same configuration, or wrote another clustered one.
  same_conf :
      (ip : Text) (peers : List Text) (keep : Bool) (b b' : B) (old : Text)
      → reload_from s (conf_of s ip peers keep) (some old) b ≡ (true, b')
      → ((old ≡ conf_of s ip peers keep) × (b ≡ b'))
        ⊎ ((is_clustered old ≡ true)
            × (is_clustered (conf_of s ip peers keep) ≡ true)
            × (hot_reload_with s (s.host.write s.conf_path (conf_of s ip peers keep) b)
                ≡ (true, b')))
  unfolding reload_from
  same_conf ip peers keep b b' old p = ground (arith, same_iff old (conf_of s ip peers keep))

  reload_from-Serves :
      (ip : Text) (peers : List Text) (keep : Bool) (b b' : B) (old : Option Text)
      → Agrees b
      → s.host.read s.conf_path b ≡ old
      → reload_from s (conf_of s ip peers keep) old b ≡ (true, b')
      → Serves peers b'
  unfolding reload_from
  reload_from-Serves ip peers keep b b' none a e p = ground arith
  reload_from-Serves ip peers keep b b' (some old) a e p =
      let new = conf_of s ip peers keep in
      let written = s.host.write s.conf_path new b in
      elim (same_conf ip peers keep b b' old p) [
        | inl k ↦ record {
          ip = ip;
          keep = keep;
          conf = ap (s.host.read s.conf_path) (sym k.1) ∙ e ∙ ap some k.0;
          in_mode = ap mode (sym k.1) ∙ a old e ∙ ap is_clustered k.0;
        }
        | inr k ↦
            hot_reload_with-Serves ip peers keep b b' written (a old e ∙ k.0 ∙ sym k.1) refl k.2
      ]

  try_hot_reload-Serves :
      (n : Node) (b b' : B)
      → Agrees b
      → try_hot_reload s n b ≡ (true, b')
      → Serves (peer_snapshot n.peers) b'
  unfolding try_hot_reload
  try_hot_reload-Serves n b b' a p =
      reload_from-Serves (s.host.resolve_ip b) (peer_snapshot n.peers) true b b' _ a refl
        (ground arith)

  pub watched_iff :
      (n n' : Node) (r : Bool × B) (b' : B)
      → watched s n r ≡ watching n' b'
      → (r ≡ (true, b')) × (n ≡ n')
  unfolding watched
  watched_iff n n' (true, b) b' p = (ground (arith, p), ground (arith, p))
  watched_iff n n' (false, b) b' p = ground (arith, p)

  pub watched-Serves :
      (n n' : Node) (b b' : B)
      → watched s n (bootstrap_nats s n b) ≡ watching n' b'
      → Serves (peer_snapshot n'.peers) b'
  watched-Serves n n' b b' p =
      let k = watched_iff n n' (bootstrap_nats s n b) b' p in
      subst {A = Node} (λ m. Serves (peer_snapshot m.peers) b') k.1
        (bootstrap_nats-Serves n b b' k.0)

  restarted-Serves :
      (n : Node) (r : Bool × B) (n' : Node) (b' : B)
      → ((b₂ : B) → r ≡ (true, b₂) → Serves (peer_snapshot n.peers) b₂)
      → restarted s n r ≡ watching n' b'
      → Serves (peer_snapshot n'.peers) b'
  unfolding restarted
  restarted-Serves n (true, b) n' b' k p =
      subst {A = Node} (λ m. Serves (peer_snapshot m.peers) b') {x = n} {y = n'} (ground (arith, p))
        (k b' (ground (arith, p)))
  restarted-Serves n (false, b) n' b' k p = watched-Serves n n' (s.host.halt b) b' p

  -- Where the broker runs in the mode of its configuration file, a turn after which the supervisor goes
  -- on leaves the configuration of the peers that the node then knows, and the broker in its mode.
  pub supervise_nats-Serves :
      (t : Turn) (n n' : Node) (b b' : B)
      → Agrees b
      → supervise_nats s t n b ≡ watching n' b'
      → Serves (peer_snapshot n'.peers) b'
  unfolding supervise_nats perform_solo_transition
  supervise_nats-Serves stop_signal n n' b b' a p = ground (arith, p)
  supervise_nats-Serves restart_signal n n' b b' a p =
      let n₁ : Node = record n { restart = false } in
      restarted-Serves n₁ (try_hot_reload s n₁ b) n' b' (λ b₂. try_hot_reload-Serves n₁ b b₂ a) p
  supervise_nats-Serves (solo_signal late) n n' b b' a p =
      watched-Serves (solo_node s late (record n { solo = false }) (solo_disk s (s.host.halt b))) n'
        _ b' p
  supervise_nats-Serves child_exit n n' b b' a p = ground (arith, p)
