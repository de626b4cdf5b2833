-- ===== src/Broker/Conf.antt =====
-- asty/internal/core/natsconf/render.go. `quote` is Go's `%q`, `decimal` its `%d`. A character outside
-- of ASCII is one code.
use asty.Common.{
  Bool, true, false, ◌&&◌, ◌||◌, Option, none, some, List, [], ◌∷◌, ◌++◌, map, Text, codes, same,
  before, has_prefix, if◌then◌else◌,
}
use asty.Common.Int.{ℤ, pos, ltb_ℤ}
use asty.Common.Map.{Map, lookup}
use asty.Common.Sort.{sort}

pub record Permissions : Type 0 where
  pub publish : List Text
  pub subscribe : List Text

pub record User : Type 0 where
  pub user : Text
  pub password : Text
  pub permissions : Option Permissions

pub record Account : Type 0 where
  pub jet_stream : Bool
  pub users : List User

-- The part of `NATSConfig` that is rendered.
pub record BrokerConfig : Type 0 where
  pub port : ℤ
  pub store_dir : Text
  pub max_memory : Text
  pub max_file : Text
  pub cluster_name : Text
  pub cluster_port : ℤ
  pub accounts : Map Account
  pub system_account : Text

pub record Input : Type 0 where
  pub config : BrokerConfig
  pub node_id : Text
  pub node_ip : Text
  pub peers : List Text
  pub keep_cluster_block : Bool

unfoldable pub is_unset : Text → Bool
is_unset t = same t []

unfoldable pub join_texts : Text → List Text → Text
join_texts sep [] = []
join_texts sep (a ∷ []) = a
join_texts sep (a ∷ b ∷ as') = a ++ sep ++ join_texts sep (b ∷ as')

unfoldable pub account_names {ℓ} : {A : Type ℓ} → Map A → List Text
account_names [] = []
account_names ((k, v) ∷ m) = k ∷ account_names m

module _ (quote : Text → Text) (decimal : ℤ → Text) where
  unfoldable pub quote_list : List Text → Text
  unfolding join_texts
  quote_list items = join_texts (codes ", ") (map quote items)

  unfoldable pub write_user : User → Text
  unfolding quote_list
  write_user u =
      let credentials =
        codes "      { user: " ++ quote u.user ++ codes ", password: " ++ quote u.password in
      elim u.permissions [
        | none ↦ credentials ++ codes " }\n"
        | some p ↦
            credentials
            ++ codes ", permissions: {\n        publish:   { allow: ["
            ++ quote_list p.publish
            ++ codes "] }\n        subscribe: { allow: ["
            ++ quote_list p.subscribe
            ++ codes "] }\n      } }\n"
      ]

  unfoldable pub write_users : List User → Text
  unfolding write_user
  write_users [] = []
  write_users (u ∷ us) = write_user u ++ write_users us

  unfoldable pub write_account : Text → Account → Text
  unfolding write_users
  write_account name acc =
      codes "  "
      ++ name
      ++ codes ": {\n"
      ++ (if acc.jet_stream then codes "    jetstream: enabled\n" else [])
      ++ codes "    users: [\n"
      ++ write_users acc.users
      ++ codes "    ]\n  }\n"

  -- The loop over the sorted names.
  unfoldable pub write_accounts : Map Account → List Text → Text
  unfolding write_account
  write_accounts m [] = []
  write_accounts m (name ∷ names) =
      elim (lookup name m) [ none ↦ [] | some acc ↦ write_account name acc ]
      ++ write_accounts m names

  unfoldable pub write_routes : ℤ → List Text → Text
  write_routes port [] = []
  write_routes port (p ∷ peers) =
      codes "    \"nats-route://"
      ++ p
      ++ codes ":"
      ++ decimal port
      ++ codes "\"\n"
      ++ write_routes port peers

  unfoldable pub identity_part : Input → Text
  identity_part i =
      codes "# generated by asty — do not edit by hand\nserver_name: "
      ++ quote i.node_id
      ++ codes "\nlisten: "
      ++ i.node_ip
      ++ codes ":"
      ++ decimal i.config.port
      ++ codes "\n"

  unfoldable pub jet_stream_part : BrokerConfig → Text
  unfolding is_unset
  jet_stream_part c =
      if is_unset c.store_dir
      then []
      else codes "\njetstream {\n  store_dir: "
        ++ quote c.store_dir
        ++ codes "\n"
        ++ (if is_unset c.max_memory then [] else codes "  max_mem: " ++ c.max_memory ++ codes "\n")
        ++ (if is_unset c.max_file then [] else codes "  max_file: " ++ c.max_file ++ codes "\n")
        ++ codes "}\n"

  -- Whether the cluster's block is written.
  unfoldable pub has_cluster_part : Input → Bool
  has_cluster_part i =
      ltb_ℤ (pos 0) i.config.cluster_port
      && (elim i.peers [ [] ↦ false | p ∷ ps ↦ true ] || i.keep_cluster_block)

  unfoldable pub cluster_part : Input → Text
  unfolding is_unset has_cluster_part write_routes
  cluster_part i =
      if has_cluster_part i
      then codes "\ncluster {\n"
        ++ (if is_unset i.config.cluster_name
            then []
            else codes "  name: " ++ quote i.config.cluster_name ++ codes "\n")
        ++ codes "  listen: "
        ++ i.node_ip
        ++ codes ":"
        ++ decimal i.config.cluster_port
        ++ codes "\n  routes: [\n"
        ++ write_routes i.config.cluster_port i.peers
        ++ codes "  ]\n}\n"
      else []

  unfoldable pub accounts_part : BrokerConfig → Text
  unfolding write_accounts account_names
  accounts_part c = elim c.accounts [
    | [] ↦ []
    | a ∷ as' ↦
        codes "\naccounts: {\n"
        ++ write_accounts c.accounts (sort before (account_names c.accounts))
        ++ codes "}\n"
  ]

  unfoldable pub system_part : BrokerConfig → Text
  unfolding is_unset
  system_part c =
      if is_unset c.system_account
      then []
      else codes "\nsystem_account: " ++ c.system_account ++ codes "\n"

  unfoldable pub render : Input → Text
  unfolding identity_part jet_stream_part cluster_part accounts_part system_part
  render i =
      identity_part i
      ++ jet_stream_part i.config
      ++ cluster_part i
      ++ accounts_part i.config
      ++ system_part i.config

-- `strings.Contains`.
unfoldable pub contains : Text → Text → Bool
contains [] sub = has_prefix [] sub
contains (c ∷ t) sub = let rest = contains t sub in has_prefix (c ∷ t) sub || rest

-- Whether a configuration has a cluster's block, as the agent tells.
unfoldable pub is_clustered : Text → Bool
unfolding contains has_prefix
is_clustered conf = contains conf (codes "cluster {")
