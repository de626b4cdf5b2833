-- ===== src/Netutil/Origin.antt =====
-- asty/internal/core/netutil/origin.go and realip.go. `host_of` is the host of `url.Parse`, with `none`
-- for an error; a blank is one of the bytes that `strings.TrimSpace` takes off in ASCII.
use asty.Common.{
  ℕ, Bool, true, false, ◌&&◌, ◌||◌, ◌==◌, leb, Option, none, some, List, [], ◌∷◌, Text, codes, same,
  has_prefix, if◌then◌else◌, reverse, value_or,
}
use asty.Common.Map.{has, put}

unfoldable pub is_blank : ℕ → Bool
is_blank c = c == 32 || (leb 9 c && leb c 13)

unfoldable pub skip_blanks : Text → Text
unfolding is_blank
skip_blanks [] = []
skip_blanks (c ∷ s) = let rest = skip_blanks s in if is_blank c then rest else c ∷ s

unfoldable pub trim_space : Text → Text
unfolding skip_blanks
trim_space s = reverse (skip_blanks (reverse (skip_blanks s)))

-- `strings.Contains(s, "://")`.
unfoldable pub has_scheme : Text → Bool
has_scheme [] = false
has_scheme (c ∷ s) = has_prefix (c ∷ s) (codes "://") || has_scheme s

module _ (host_of : Text → Option Text) where
  -- `ExtractHost`.
  unfoldable pub not_empty : Option Text → Option Text
  not_empty none = none
  not_empty (some []) = none
  not_empty (some (c ∷ h)) = some (c ∷ h)

  unfoldable pub extract_host : Text → Option Text
  unfolding has_scheme not_empty
  extract_host s = if has_scheme s then not_empty (host_of s) else some s

  -- One entry of `ParseOriginAllowList`, trimmed: the set with its host.
  unfoldable pub add_host : List Text → Option Text → Option (List Text)
  add_host hosts none = none
  add_host hosts (some h) = some (put h hosts)

  unfoldable pub parse_entry : List Text → Text → Option (List Text)
  unfolding add_host extract_host
  parse_entry hosts [] = some hosts
  parse_entry hosts (c ∷ s) = add_host hosts (extract_host (c ∷ s))

  -- `ParseOriginAllowList`; `none` is an error.
  unfoldable pub parse_from : List Text → List Text → Option (List Text)
  unfolding parse_entry trim_space
  parse_from hosts [] = some hosts
  parse_from hosts (e ∷ es) = elim (parse_entry hosts (trim_space e)) [
    | none ↦ none
    | some hosts' ↦ parse_from hosts' es
  ]

  unfoldable pub parse_origin_allow_list : List Text → Option (List Text)
  unfolding parse_from
  parse_origin_allow_list entries = parse_from [] entries

  -- `Allows`.
  unfoldable pub is_listed : List Text → Option Text → Bool
  is_listed hosts none = false
  is_listed hosts (some h) = has h hosts

  unfoldable pub allows : List Text → Text → Bool
  unfolding is_listed extract_host
  allows [] origin = true
  allows (h ∷ hosts) [] = true
  allows (h ∷ hosts) (c ∷ s) = is_listed (h ∷ hosts) (extract_host (c ∷ s))

-- `RealIP`: `remote_ip` is the host of `net.SplitHostPort` on the remote address, `canonical` is
-- `net.ParseIP` with its `String`.
unfoldable pub or_remote : Text → Option Text → Text
or_remote addr none = addr
or_remote addr (some ip) = ip

unfoldable pub real_ip : (Text → Option Text) → (Text → Option Text) → Text → Text → Text → Text
unfolding or_remote
real_ip remote_ip canonical addr header [] = or_remote addr (remote_ip addr)
real_ip remote_ip canonical addr [] (p ∷ proxy) = or_remote addr (remote_ip addr)
real_ip remote_ip canonical addr (h ∷ header) (p ∷ proxy) =
    if same (value_or [] (remote_ip addr)) (p ∷ proxy)
    then elim (canonical (h ∷ header)) [ none ↦ or_remote addr (remote_ip addr) | some ip ↦ ip ]
    else or_remote addr (remote_ip addr)
