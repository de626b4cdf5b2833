-- ===== src/Settings/Accepted.antt =====
-- asty/internal/core/config: the configurations that `Validate` accepts.
use asty.Common.{◌≡◌, ◌≢◌, ◌↔◌, ◌⊎◌, inl, inr, Bool, true, false, none, [], same, same_iff, arith}
use asty.Common.Int.{pos, ◌≤ℤ◌}
use asty.Server.Replicas.{is_valid_cluster}
use asty.Settings.Schema.{GatewayRateLimitConfig, GatewayConfig, Settings}
use asty.Settings.Validate.{
  check, first_of, validate_autoscale, validate_cluster, validate_nats, validate_rate_limit,
  validate_gateway, validate_settings,
}
use asty.Settings.Reachable.{
  IsScalable, validate_autoscale-IsScalable, IsScalable-validate_autoscale, validate_cluster_iff,
  IsReachable, validate_nats_iff,
}

module _ {F : Type 0} (at_most_zero : F → Bool) where
  -- The limits of the gateway.
  pub record IsLimiting (rl : GatewayRateLimitConfig F) : Type 0 where
    pub rate : at_most_zero rl.rate ≡ false
    pub burst : pos 1 ≤ℤ rl.burst
    pub max_ips : pos 1 ≤ℤ rl.max_ips
    pub max_ws_conns : pos 1 ≤ℤ rl.max_ws_conns

  validate_rate_limit_iff :
      (rl : GatewayRateLimitConfig F) → (validate_rate_limit at_most_zero rl ≡ none) ↔ IsLimiting rl
  unfolding validate_rate_limit check
  validate_rate_limit_iff rl = (
    λ h. record {
      rate = ground arith;
      burst = ground arith;
      max_ips = ground arith;
      max_ws_conns = ground arith;
    },
    λ l. ground (arith, l.rate, l.burst, l.max_ips, l.max_ws_conns),
  )

  validate_gateway_parts :
      (g : GatewayConfig F)
      → (validate_gateway at_most_zero g ≡ none)
        ↔ ((g.enabled ≡ false) ⊎ (validate_rate_limit at_most_zero g.rate_limit ≡ none))
  unfolding validate_gateway
  validate_gateway_parts g = (λ h. ground arith, λ h. ground arith)

  validate_gateway_iff :
      (g : GatewayConfig F)
      → (validate_gateway at_most_zero g ≡ none) ↔ ((g.enabled ≡ false) ⊎ IsLimiting g.rate_limit)
  validate_gateway_iff g =
      let parts = validate_gateway_parts g in
      let limits = validate_rate_limit_iff g.rate_limit in
      (
        λ h. elim (parts.0 h) [ inl off ↦ inl off | inr ok ↦ inr (limits.0 ok) ],
        λ h. parts.1 (elim h [ inl off ↦ inl off | inr l ↦ inr (limits.1 l) ]),
      )

  -- What a configuration has to satisfy: the thresholds and the replica counts always, and outside
  -- of development mode a token, the bus and the gateway.
  pub record IsAcceptable (c : Settings F) : Type 0 where
    pub scaling : IsScalable c.autoscale
    pub replicas : is_valid_cluster c.cluster ≡ true
    pub secured :
        (c.dev_mode ≡ true)
        ⊎ ((c.token ≢ [])
            × IsReachable c.nats
            × ((c.gateway.enabled ≡ false) ⊎ IsLimiting c.gateway.rate_limit))

  validate_settings_parts :
      (c : Settings F)
      → (validate_settings at_most_zero c ≡ none) ↔ (
          (validate_autoscale c.autoscale ≡ none)
          × (validate_cluster c.cluster ≡ none)
          × ((c.dev_mode ≡ true)
              ⊎ ((same c.token [] ≡ false)
                  × (validate_nats c.nats ≡ none)
                  × (validate_gateway at_most_zero c.gateway ≡ none))))
  unfolding validate_settings check first_of
  validate_settings_parts c = (λ h. ground arith, λ h. ground arith)

  -- A configuration is accepted exactly when the replica counts and the thresholds of the
  -- autoscaler are in range and, outside of development mode, the token is not empty, the bus's
  -- port is in range, a cluster port other than 0 is in range and differs from it, a system
  -- account that is named is declared, every account has users and each of them a name, the
  -- agent's user, unless empty, is not that of the services, and an enabled gateway has positive
  -- limits.
  pub validate_settings_iff :
      (c : Settings F) → (validate_settings at_most_zero c ≡ none) ↔ IsAcceptable c
  validate_settings_iff c =
      let parts = validate_settings_parts c in
      let token = same_iff c.token [] in
      let nats = validate_nats_iff c.nats in
      let gateway = validate_gateway_iff c.gateway in
      (
        λ h.
            let p = parts.0 h in
            record {
              scaling = validate_autoscale-IsScalable c.autoscale p.0;
              replicas = (validate_cluster_iff c.cluster).0 p.1;
              secured = elim (p.2) [
                | inl d ↦ inl d
                | inr s ↦ inr ((λ e. ground (arith, s.0, token.1 e)), nats.0 s.1, gateway.0 s.2)
              ];
            },
        λ a. parts.1 (
          IsScalable-validate_autoscale c.autoscale a.scaling,
          (validate_cluster_iff c.cluster).1 a.replicas,
          elim (a.secured) [
            | inl d ↦ inl d
            | inr s ↦ inr (ground (arith, s.0, token.0), nats.1 s.1, gateway.1 s.2)
          ],
        ),
      )
