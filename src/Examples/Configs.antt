-- ===== src/Examples/Configs.antt =====
-- The default configuration with a token.
use asty.Common.{
  Option, none, some, Text, [], if◌then◌else◌, ℕ, ◌≡◌, ◌↔◌, refl, Bool, none, some, codes, same,
  ◌==◌,
}
use asty.Settings.Schema.{Settings}
use asty.Settings.Validate.{validate_settings, token_missing}
use asty.Settings.Defaults.{defaults}
use asty.Settings.Env.{Parsers, apply_env_overrides}
use asty.Settings.Load.{ReadResult, not_there, load, expand_braced_env}
use asty.Settings.Precedence.{IsLoaded, load-IsLoaded}
use asty.Settings.Accepted.{IsAcceptable, validate_settings_iff}

abbrev is_zero : ℕ → Bool
is_zero n = n == 0

abbrev with_token : Settings ℕ
with_token = record (defaults 100) { token = codes "secret" }

validate_settings_iff_example :
    (validate_settings is_zero with_token ≡ none) ↔ IsAcceptable is_zero with_token
validate_settings_iff_example = validate_settings_iff is_zero with_token

accepts_token : validate_settings is_zero with_token ≡ none
unfolding validate_settings same
accepts_token = refl

rejects_no_token : validate_settings is_zero (defaults 100) ≡ some token_missing
unfolding validate_settings same
rejects_no_token = refl

-- An environment that sets the token, and a parser that keeps the defaults.
abbrev environment : Text → Option Text
environment key = if same key (codes "A_TOKEN") then some (codes "secret") else none

abbrev parsers : Parsers ℕ
parsers = record {
  parse_bool = λ t. none;
  atoi = λ t. none;
  parse_float = λ t. none;
  parse_duration = λ t. none;
}

abbrev no_file : Text → ReadResult
no_file path = not_there

load-IsLoaded_example :
    IsLoaded 100 environment parsers
      (λ t c. some c)
      no_file
      []
      (apply_env_overrides environment parsers (defaults 100))
unfolding load same
load-IsLoaded_example =
    load-IsLoaded 100 environment parsers (λ t c. some c) no_file []
      (apply_env_overrides environment parsers (defaults 100)) refl

expands : expand_braced_env environment (codes "a$b${A_TOKEN}c") ≡ codes "a$bsecretc"
unfolding expand_braced_env same
expands = refl
