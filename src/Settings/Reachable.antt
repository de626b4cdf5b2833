-- ===== src/Settings/Reachable.antt =====
-- asty/internal/core/config: the parts of a configuration that `Validate` accepts.
use asty.Common.{
  ℕ, suc, ◌≡◌, ◌≢◌, ◌↔◌, ◌⊎◌, refl, Bool, true, false, Option, none, List, [], ◌∷◌, Text, same,
  same_iff, arith, All,
}
use asty.Common.Int.{pos, ◌≤ℤ◌, eqb_ℤ_sound}
use asty.Common.Map.{lookup, is_some}
use asty.Server.Replicas.{ClusterConfig, is_valid_cluster}
use asty.Settings.Schema.{AutoscaleConfig, NatsUser, NatsAccount, NatsServerConfig, NatsConfig}
use asty.Settings.Validate.{
  Rejection, check, first_of, validate_autoscale, validate_cluster, is_bad_port,
  validate_cluster_port, validate_users, validate_account, validate_accounts, validate_nats,
}

check_iff :
    (bad : Bool) (e : Rejection) (next : Option Rejection)
    → (check bad e next ≡ none) ↔ ((bad ≡ false) × (next ≡ none))
unfolding check
check_iff bad e next = (λ h. ground arith, λ h. ground arith)

first_of_iff : (a next : Option Rejection) → (first_of a next ≡ none) ↔ ((a ≡ none) × (next ≡ none))
unfolding first_of
first_of_iff a next = (λ h. ground arith, λ h. ground arith)

-- The thresholds of the autoscaler.
pub record IsScalable (a : AutoscaleConfig) : Type 0 where
  pub floor : pos 1 ≤ℤ a.min_copies
  pub ceiling : (a.max_copies ≤ℤ pos 0) ⊎ (a.min_copies ≤ℤ a.max_copies)
  pub cpu : (pos 1 ≤ℤ a.target_cpu) × (a.target_cpu ≤ℤ pos 99)
  pub memory : (pos 1 ≤ℤ a.target_memory) × (a.target_memory ≤ℤ pos 99)
  pub hold : pos 0 ≤ℤ a.idle_hold

pub validate_autoscale-IsScalable :
    (a : AutoscaleConfig) → validate_autoscale a ≡ none → IsScalable a
unfolding validate_autoscale check
validate_autoscale-IsScalable a h = record {
  floor = ground arith;
  ceiling = ground arith;
  cpu = (ground arith, ground arith);
  memory = (ground arith, ground arith);
  hold = ground arith;
}

pub IsScalable-validate_autoscale :
    (a : AutoscaleConfig) → IsScalable a → validate_autoscale a ≡ none
unfolding validate_autoscale check
IsScalable-validate_autoscale a s = ground (arith, s.floor, s.ceiling, s.cpu, s.memory, s.hold)

pub validate_cluster_iff :
    (c : ClusterConfig) → (validate_cluster c ≡ none) ↔ (is_valid_cluster c ≡ true)
unfolding validate_cluster check is_valid_cluster
validate_cluster_iff c = (λ h. ground arith, λ h. ground arith)

-- A port of 0 means that the node is not clustered.
pub IsRoutable : NatsServerConfig → Type 0
IsRoutable s =
    (s.cluster.port ≡ pos 0)
    ⊎ ((pos 1 ≤ℤ s.cluster.port) × (s.cluster.port ≤ℤ pos 65535) × (s.cluster.port ≢ s.port))

validate_cluster_port-IsRoutable :
    (s : NatsServerConfig) → validate_cluster_port s ≡ none → IsRoutable s
unfolding validate_cluster_port check IsRoutable
validate_cluster_port-IsRoutable s h = ground (arith, eqb_ℤ_sound s.cluster.port (pos 0))

IsRoutable-validate_cluster_port :
    (s : NatsServerConfig) → IsRoutable s → validate_cluster_port s ≡ none
unfolding validate_cluster_port check IsRoutable
IsRoutable-validate_cluster_port s r = ground arith

validate_users_iff :
    (name : Text) (i : ℕ) (us : List NatsUser)
    → (validate_users name i us ≡ none) ↔ All (λ u. u.user ≢ []) us
unfolding validate_users check
validate_users_iff name i [] = (λ h. tt, λ h. refl)
validate_users_iff name i (u ∷ us) =
    let rest = validate_users_iff name (suc i) us in
    let empty = same_iff u.user [] in
    (
      λ h. (λ e. ground (arith, empty.1 e), rest.0 (ground arith)),
      λ a. ground (arith, empty.0, a.0, rest.1 a.1),
    )

-- An account has users, and all have names.
pub IsStaffed : List NatsUser → Type 0
IsStaffed us = (us ≢ []) × All (λ u. u.user ≢ []) us

validate_account_iff :
    (name : Text) (us : List NatsUser) → (validate_account name us ≡ none) ↔ IsStaffed us
unfolding validate_account IsStaffed
validate_account_iff name [] = (λ h. ground arith, λ a. ground (arith, a.0))
validate_account_iff name (u ∷ us) =
    let users = validate_users_iff name 0 (u ∷ us) in
    (λ h. (λ e. ground (arith, e), users.0 h), λ a. users.1 a.1)

validate_accounts_iff :
    (as' : List (Text × NatsAccount))
    → (validate_accounts as' ≡ none) ↔ All (λ a. IsStaffed a.1.users) as'
unfolding validate_accounts
validate_accounts_iff [] = (λ h. tt, λ h. refl)
validate_accounts_iff ((name, acc) ∷ as') =
    let one = validate_account_iff name acc.users in
    let rest = validate_accounts_iff as' in
    let both = first_of_iff (validate_account name acc.users) (validate_accounts as') in
    (λ h. (one.0 (both.0 h).0, rest.0 (both.0 h).1), λ a. both.1 (one.1 a.0, rest.1 a.1))

-- The bus: its ports, its system account, and names of its own for the agent and the services.
pub record IsReachable (n : NatsConfig) : Type 0 where
  pub port : (pos 1 ≤ℤ n.server.port) × (n.server.port ≤ℤ pos 65535)
  pub routes : IsRoutable n.server
  pub system :
      (n.server.system_account ≡ [])
      ⊎ (is_some (lookup n.server.system_account n.server.accounts) ≡ true)
  pub apart : (n.user ≡ []) ⊎ (n.app_user ≢ n.user)
  pub staffed : All (λ a. IsStaffed a.1.users) n.server.accounts

validate_nats_parts :
    (n : NatsConfig)
    → (validate_nats n ≡ none) ↔ (
        (is_bad_port n.server.port ≡ false)
        × (validate_cluster_port n.server ≡ none)
        × ((same n.server.system_account [] ≡ true)
            ⊎ (is_some (lookup n.server.system_account n.server.accounts) ≡ true))
        × ((same n.user [] ≡ true) ⊎ (same n.app_user [] ≡ true) ⊎ (same n.user n.app_user ≡ false))
        × (validate_accounts n.server.accounts ≡ none))
unfolding validate_nats check first_of
validate_nats_parts n = (λ h. ground arith, λ h. ground arith)

pub validate_nats_iff : (n : NatsConfig) → (validate_nats n ≡ none) ↔ IsReachable n
unfolding is_bad_port
validate_nats_iff n =
    let parts = validate_nats_parts n in
    let system = same_iff n.server.system_account [] in
    let user = same_iff n.user [] in
    let app = same_iff n.app_user [] in
    let both = same_iff n.user n.app_user in
    (
      λ h.
          let p = parts.0 h in
          record {
            port = (ground (arith, p.0), ground (arith, p.0));
            routes = validate_cluster_port-IsRoutable n.server p.1;
            system = ground (arith, p.2, system);
            apart = ground (arith, p.3, user, app, both);
            staffed = (validate_accounts_iff n.server.accounts).0 p.4;
          },
      λ r. parts.1 (
        ground (arith, r.port),
        IsRoutable-validate_cluster_port n.server r.routes,
        ground (arith, r.system, system),
        ground (arith, r.apart, user, app, both),
        (validate_accounts_iff n.server.accounts).1 r.staffed,
      ),
    )
