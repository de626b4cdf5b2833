-- ===== src/Settings/Load.antt =====
-- asty/internal/core/config/load.go. `unmarshal` is `yaml.Unmarshal` into a configuration, `environment`
-- is `os.LookupEnv`.
use asty.Common.{
  ℕ, zero, suc, ◌+◌, Bool, true, false, ◌&&◌, ◌||◌, ◌==◌, Option, none, some, [], ◌∷◌, ◌++◌, Text,
  codes, same, if◌then◌else◌, leb, value_or, length,
}
use asty.Settings.Schema.{Settings}
use asty.Settings.Defaults.{defaults}
use asty.Settings.Env.{Parsers, apply_env_overrides}

-- The characters of a name, and those that may begin one.
unfoldable pub is_name_start : ℕ → Bool
is_name_start c = (leb 65 c && leb c 90) || (leb 97 c && leb c 122) || c == 95

unfoldable pub is_name_char : ℕ → Bool
unfolding is_name_start
is_name_char c = is_name_start c || (leb 48 c && leb c 57)

-- The rest of a name up to its brace: `[A-Za-z0-9_]*\}`.
unfoldable pub name_rest : Text → Option Text
unfolding is_name_char
name_rest [] = none
name_rest (c ∷ t) =
    let rest = name_rest t in
    if c == 125
    then some []
    else if is_name_char c
    then elim rest [ none ↦ none | some name ↦ some (c ∷ name) ]
    else none

-- What stands behind a dollar sign: `\{[A-Za-z_][A-Za-z0-9_]*\}`.
unfoldable pub braced : Text → Option Text
unfolding name_rest is_name_start
braced (c ∷ d ∷ t) =
    if c == 123 && is_name_start d
    then elim (name_rest t) [ none ↦ none | some name ↦ some (d ∷ name) ]
    else none
braced _ = none

module _ (environment : Text → Option Text) where
  -- The replacement, with the number of characters that the last match still covers.
  unfoldable pub expand_from : ℕ → Text → Text
  unfolding braced
  expand_from n [] = []
  expand_from (suc n) (c ∷ t) = expand_from n t
  expand_from zero (c ∷ t) =
      let plain = expand_from zero t in
      if c == 36
      then elim (braced t) [
        | none ↦ c ∷ plain
        | some name ↦ value_or [] (environment name) ++ expand_from (length name + 2) t
      ]
      else c ∷ plain

  unfoldable pub expand_braced_env : Text → Text
  unfolding expand_from
  expand_braced_env t = expand_from 0 t

-- What reading a file comes to.
pub data ReadResult : Type 0 where
  content : Text → ReadResult
  not_there : ReadResult
  broken : ReadResult

pub data LoadError : Type 0 where
  parse_error : LoadError
  read_error : LoadError

pub data Loaded (F : Type 0) : Type 0 where
  loaded : Settings F → Loaded F
  failed_load : LoadError → Loaded F

abbrev pub default_path : Text
default_path = codes "./config.asty"

module _ {F : Type 0} (hundred : F) (environment : Text → Option Text) (ps : Parsers F)
    (unmarshal : Text → Settings F → Option (Settings F)) (read : Text → ReadResult) where
  -- The `switch` on the result of reading.
  unfoldable pub load_from : Bool → ReadResult → Loaded F
  unfolding expand_braced_env apply_env_overrides
  load_from explicit (content data') =
      elim (unmarshal (expand_braced_env environment data') (defaults hundred)) [
        | none ↦ failed_load parse_error
        | some c ↦ loaded (apply_env_overrides environment ps c)
      ]
  load_from explicit not_there =
      if explicit
      then failed_load read_error
      else loaded (apply_env_overrides environment ps (defaults hundred))
  load_from explicit broken = failed_load read_error

  unfoldable pub load : Text → Loaded F
  unfolding load_from
  load path =
      if same path [] then load_from false (read default_path) else load_from true (read path)
