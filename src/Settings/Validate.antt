-- ===== src/Settings/Validate.antt =====
-- asty/internal/core/config: the `Validate` methods. An error is the setting that is at fault;
-- `at_most_zero` is the comparison of the request rate with 0.
use asty.Common.{
  ℕ, suc, Bool, not, ◌&&◌, ◌||◌, Option, none, some, List, [], ◌∷◌, Text, same, if◌then◌else◌,
}
use asty.Common.Int.{ℤ, pos, ltb_ℤ, leb_ℤ, eqb_ℤ}
use asty.Common.Map.{lookup, is_some}
use asty.Server.Replicas.{ClusterConfig}
use asty.Settings.Schema.{
  AutoscaleConfig, NatsUser, NatsAccount, NatsServerConfig, NatsConfig, GatewayRateLimitConfig,
  GatewayConfig, Settings,
}

pub data Rejection : Type 0 where
  min_copies_low : Rejection
  max_below_min : Rejection
  cpu_out_of_range : Rejection
  memory_out_of_range : Rejection
  idle_hold_negative : Rejection
  system_replicas_low : Rejection
  app_replicas_low : Rejection
  token_missing : Rejection
  port_out_of_range : Rejection
  cluster_port_out_of_range : Rejection
  ports_equal : Rejection
  system_account_unknown : Rejection
  app_is_agent : Rejection
  account_without_users : Text → Rejection
  user_without_name : Text → ℕ → Rejection
  rate_not_positive : Rejection
  burst_not_positive : Rejection
  max_ips_not_positive : Rejection
  max_ws_conns_not_positive : Rejection

-- `if bad { return err }`, and then the rest of the function.
unfoldable pub check : Bool → Rejection → Option Rejection → Option Rejection
check bad e next = if bad then some e else next

-- `if err := ...; err != nil { return err }`, and then the rest of the function.
unfoldable pub first_of : Option Rejection → Option Rejection → Option Rejection
first_of none next = next
first_of (some e) next = some e

unfoldable pub validate_autoscale : AutoscaleConfig → Option Rejection
unfolding check
validate_autoscale a = check (ltb_ℤ a.min_copies (pos 1)) min_copies_low (
    check (ltb_ℤ (pos 0) a.max_copies && ltb_ℤ a.max_copies a.min_copies) max_below_min (
      check (leb_ℤ a.target_cpu (pos 0) || leb_ℤ (pos 100) a.target_cpu) cpu_out_of_range (
        check (leb_ℤ a.target_memory (pos 0) || leb_ℤ (pos 100) a.target_memory) memory_out_of_range
          (check (ltb_ℤ a.idle_hold (pos 0)) idle_hold_negative none))))

unfoldable pub validate_cluster : ClusterConfig → Option Rejection
unfolding check
validate_cluster c =
    check (ltb_ℤ c.system_kv_replicas (pos 1)) system_replicas_low
      (check (ltb_ℤ c.app_kv_replicas (pos 1)) app_replicas_low none)

unfoldable pub is_bad_port : ℤ → Bool
is_bad_port p = leb_ℤ p (pos 0) || ltb_ℤ (pos 65535) p

unfoldable pub validate_cluster_port : NatsServerConfig → Option Rejection
unfolding check is_bad_port
validate_cluster_port s =
    if eqb_ℤ s.cluster.port (pos 0)
    then none
    else check (ltb_ℤ s.cluster.port (pos 0) || ltb_ℤ (pos 65535) s.cluster.port)
        cluster_port_out_of_range (check (eqb_ℤ s.cluster.port s.port) ports_equal none)

-- The inner loop, from the user with index `i` on.
unfoldable pub validate_users : Text → ℕ → List NatsUser → Option Rejection
unfolding check
validate_users name i [] = none
validate_users name i (u ∷ us) =
    check (same u.user []) (user_without_name name i) (validate_users name (suc i) us)

-- One account, by its users.
unfoldable pub validate_account : Text → List NatsUser → Option Rejection
unfolding validate_users
validate_account name [] = some (account_without_users name)
validate_account name (u ∷ us) = validate_users name 0 (u ∷ us)

unfoldable pub validate_accounts : List (Text × NatsAccount) → Option Rejection
unfolding first_of validate_account
validate_accounts [] = none
validate_accounts ((name, acc) ∷ as') =
    first_of (validate_account name acc.users) (validate_accounts as')

unfoldable pub validate_nats : NatsConfig → Option Rejection
unfolding check first_of is_bad_port validate_cluster_port validate_accounts
validate_nats n = check (is_bad_port n.server.port) port_out_of_range (
    first_of (validate_cluster_port n.server) (
      check
        (not (same n.server.system_account [])
          && not (is_some (lookup n.server.system_account n.server.accounts)))
        system_account_unknown
        (check (not (same n.user []) && not (same n.app_user []) && same n.user n.app_user)
          app_is_agent (validate_accounts n.server.accounts))))

module _ {F : Type 0} (at_most_zero : F → Bool) where
  unfoldable pub validate_rate_limit : GatewayRateLimitConfig F → Option Rejection
  unfolding check
  validate_rate_limit rl = check (at_most_zero rl.rate) rate_not_positive (
      check (leb_ℤ rl.burst (pos 0)) burst_not_positive (
        check (leb_ℤ rl.max_ips (pos 0)) max_ips_not_positive
          (check (leb_ℤ rl.max_ws_conns (pos 0)) max_ws_conns_not_positive none)))

  unfoldable pub validate_gateway : GatewayConfig F → Option Rejection
  unfolding validate_rate_limit
  validate_gateway g = if g.enabled then validate_rate_limit g.rate_limit else none

  unfoldable pub validate_settings : Settings F → Option Rejection
  unfolding check first_of validate_autoscale validate_cluster validate_nats validate_gateway
  validate_settings c = first_of (validate_autoscale c.autoscale) (
      first_of (validate_cluster c.cluster) (
        if c.dev_mode
        then none
        else check (same c.token []) token_missing
            (first_of (validate_nats c.nats) (validate_gateway c.gateway))))
