-- ===== src/Settings/Overrides.antt =====
-- asty/internal/core/config/env.go: applying the environment a second time.
use asty.Common.{◌≡◌, Option, List, Text, arith}
use asty.Settings.Schema.{Settings}
use asty.Settings.Env.{Parsers, env_str, env_with, env_csv, apply_env_overrides}

module _ {F : Type 0} (environment : Text → Option Text) (ps : Parsers F) where
  env_str_twice :
      (key v : Text)
      → env_str environment ps key (env_str environment ps key v) ≡ env_str environment ps key v
  unfolding env_str
  env_str_twice key v = ground arith

  env_csv_twice :
      (key : Text) (v : List Text)
      → env_csv environment ps key (env_csv environment ps key v) ≡ env_csv environment ps key v
  unfolding env_csv
  env_csv_twice key v = ground arith

  env_with_twice :
      {A : Type 0} (parse : Text → Option A) (key : Text) (v : A)
      → env_with environment ps parse key (env_with environment ps parse key v)
        ≡ env_with environment ps parse key v
  unfolding env_with
  env_with_twice parse key v = ground arith

  -- Applying the environment a second time changes nothing.
  pub apply_env_overrides_twice :
      (c : Settings F)
      → apply_env_overrides environment ps (apply_env_overrides environment ps c)
        ≡ apply_env_overrides environment ps c
  unfolding apply_env_overrides
  apply_env_overrides_twice c = simp (env_str_twice, env_csv_twice, env_with_twice)
