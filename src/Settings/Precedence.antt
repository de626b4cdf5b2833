-- ===== src/Settings/Precedence.antt =====
-- asty/internal/core/config/load.go: the order of precedence.
use asty.Common.{
  ℕ, ◌≡◌, refl, sym, ◌∙◌, ap, Bool, true, false, Option, none, some, [], ◌∷◌, Text, codes, arith,
  same, if◌then◌else◌, has_prefix,
}
use asty.Broker.Conf.{contains}
use asty.Settings.Schema.{Settings}
use asty.Settings.Defaults.{defaults}
use asty.Settings.Env.{Parsers, apply_env_overrides}
use asty.Settings.Overrides.{apply_env_overrides_twice}
use asty.Settings.Load.{
  braced, expand_braced_env, ReadResult, content, not_there, broken, loaded, default_path,
  load_from, load,
}

braced_head : (t : Text) → has_prefix t (codes "{") ≡ false → braced t ≡ none
unfolding braced has_prefix
braced_head [] h = refl
braced_head (c ∷ []) h = refl
braced_head (c ∷ d ∷ t) h = ground (arith, h)

module _ (environment : Text → Option Text) where
  -- A text in which no dollar sign is followed by a brace is left alone.
  pub expand_braced_env-plain :
      (t : Text) → contains t (codes "${") ≡ false → expand_braced_env environment t ≡ t
  unfolding expand_braced_env contains has_prefix
  expand_braced_env-plain [] h = refl
  expand_braced_env-plain (c ∷ t) h = ground (arith, h, braced_head t, expand_braced_env-plain t)

module _ {F : Type 0} (hundred : F) (environment : Text → Option Text) (ps : Parsers F)
    (unmarshal : Text → Settings F → Option (Settings F)) (read : Text → ReadResult) where
  -- Where a configuration comes from: the default file is not there, or a file was read and parsed over
  -- the defaults.
  pub data Source : Text → Settings F → Type 0 where
    from_defaults : read default_path ≡ not_there → Source [] (defaults hundred)
    from_file :
        (path data' : Text) (d : Settings F)
        → read (if same path [] then default_path else path) ≡ content data'
        → unmarshal (expand_braced_env environment data') (defaults hundred) ≡ some d
        → Source path d

  pub IsLoaded : Text → Settings F → Type 0
  IsLoaded path c =
      (apply_env_overrides environment ps c ≡ c)
      × ((d : Settings F) × Source path d × (c ≡ apply_env_overrides environment ps d))

  load_from-content :
      (explicit : Bool) (path data' : Text) (c : Settings F) (o : Option (Settings F))
      → read (if same path [] then default_path else path) ≡ content data'
      → unmarshal (expand_braced_env environment data') (defaults hundred) ≡ o
      → load_from hundred environment ps unmarshal read explicit (content data') ≡ loaded c
      → IsLoaded path c
  unfolding load_from IsLoaded
  load_from-content explicit path data' c none r u p = ground (arith, u, p)
  load_from-content explicit path data' c (some d) r u p =
      let e : c ≡ apply_env_overrides environment ps d = ground (arith, u, p) in
      (
        ap (apply_env_overrides environment ps) e
            ∙ apply_env_overrides_twice environment ps d
            ∙ sym e,
        (d, from_file path data' d r u, e),
      )

  default-IsLoaded :
      (c : Settings F) (r : ReadResult)
      → read default_path ≡ r
      → load_from hundred environment ps unmarshal read false r ≡ loaded c
      → IsLoaded [] c
  unfolding load_from IsLoaded same
  default-IsLoaded c (content data') r p = load_from-content false [] data' c _ r refl p
  default-IsLoaded c not_there r p =
      let e : c ≡ apply_env_overrides environment ps (defaults hundred) = ground (arith, p) in
      (
        ap (apply_env_overrides environment ps) e
            ∙ apply_env_overrides_twice environment ps (defaults hundred)
            ∙ sym e,
        (defaults hundred, from_defaults r, e),
      )
  default-IsLoaded c broken r p = ground (arith, p)

  explicit-IsLoaded :
      (d : ℕ) (path : Text) (c : Settings F) (r : ReadResult)
      → read (d ∷ path) ≡ r
      → load_from hundred environment ps unmarshal read true r ≡ loaded c
      → IsLoaded (d ∷ path) c
  unfolding load_from IsLoaded same
  explicit-IsLoaded d path c (content data') r p =
      load_from-content true (d ∷ path) data' c _ r refl p
  explicit-IsLoaded d path c not_there r p = ground (arith, p)
  explicit-IsLoaded d path c broken r p = ground (arith, p)

  -- A configuration that is loaded is one that the environment does not change any more. It is the
  -- defaults, where no path was given and the default file is not there, or a file that was read and
  -- parsed over the defaults, with the environment applied last.
  pub load-IsLoaded :
      (path : Text) (c : Settings F)
      → load hundred environment ps unmarshal read path ≡ loaded c
      → IsLoaded path c
  unfolding load same
  load-IsLoaded [] c p = default-IsLoaded c (read default_path) refl p
  load-IsLoaded (d ∷ path) c p = explicit-IsLoaded d path c (read (d ∷ path)) refl p
