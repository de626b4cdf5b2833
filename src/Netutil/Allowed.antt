-- ===== src/Netutil/Allowed.antt =====
-- Which origins an allow list lets through, in terms of the entries that it was made from.
use asty.Common.{
  ◌≡◌, ◌≢◌, refl, ap, sym, ◌∙◌, ◌⊎◌, inl, inr, Bool, true, false, ◌||◌, Option, none, some, List,
  [], ◌∷◌, Text, same, arith, any, every, Bool-cases, Option-cases, value_or,
}
use asty.Common.Map.{has, put, has-put}
use asty.Netutil.Origin.{
  trim_space, extract_host, add_host, parse_entry, parse_from, parse_origin_allow_list, is_listed,
  allows,
}

unfoldable pub is_empty : Text → Bool
is_empty [] = true
is_empty (c ∷ s) = false

unfoldable pub is_host : Text → Option Text → Bool
is_host h none = false
is_host h (some k) = same k h

-- Whether no entry names a host.
abbrev pub bare : List Text → Bool
bare es = every (λ e. is_empty (trim_space e)) es

cons_nil : (x : Text) (xs : List Text) → x ∷ xs ≢ []
cons_nil x xs q = cc

put_cons : (h : Text) (hosts : List Text) → put h hosts ≢ []
unfolding put has
put_cons h [] e = cc
put_cons h (k ∷ hosts) e = elim (Bool-cases (has h (k ∷ hosts))) [
  | inl i ↦ cons_nil k hosts (rw i at e)
  | inr i ↦ cons_nil h (k ∷ hosts) (rw i at e)
]

unwrap : (a b : List Text) → some a ≡ some b → a ≡ b
unwrap a b e = ap (value_or []) e

none_some : {A : Type 0} (made : List Text) → none ≡ some made → A
none_some made e = cc

module _ (host_of : Text → Option Text) where
  names_trimmed : Text → Text → Bool
  unfolding is_host
  names_trimmed h [] = false
  names_trimmed h (c ∷ s) = is_host h (extract_host host_of (c ∷ s))

  -- Whether an entry names a host.
  unfoldable pub names : Text → Text → Bool
  unfolding names_trimmed
  names h e = names_trimmed h (trim_space e)

  -- One entry: the hosts after it.
  record Adds (t : Text) (hosts made : List Text) : Type 0 where
    holds : (h : Text) → has h made ≡ (has h hosts || names_trimmed h t)
    same_if : is_empty t ≡ true → made ≡ hosts
    filled : (hosts ≢ []) ⊎ (is_empty t ≡ false) → made ≢ []

  add_host-has :
      (o : Option Text) (hosts made : List Text)
      → add_host host_of hosts o ≡ some made
      → ((h : Text) → has h made ≡ (has h hosts || is_host h o)) × (made ≢ [])
  unfolding add_host is_host
  add_host-has none hosts made e = cc
  add_host-has (some k) hosts made e =
      let q = unwrap (put k hosts) made e in
      (λ h. ground (arith, ap (has h) q, has-put k h hosts), λ n. put_cons k hosts (q ∙ n))

  parse_entry-Adds :
      (t : Text) (hosts made : List Text)
      → parse_entry host_of hosts t ≡ some made
      → Adds t hosts made
  unfolding parse_entry names_trimmed is_empty
  parse_entry-Adds [] hosts made e =
      let q = unwrap hosts made e in
      record {
        holds = λ h. ground (arith, ap (has h) q);
        same_if = λ u. sym q;
        filled = λ f n. elim f [ inl full ↦ full (q ∙ n) | inr u ↦ absurd (ground (arith, u)) ];
      }
  parse_entry-Adds (c ∷ s) hosts made e =
      let (h, n) = add_host-has (extract_host host_of (c ∷ s)) hosts made e in
      record { holds = h; same_if = λ u. absurd (ground (arith, u)); filled = λ f. n }

  -- All entries: the hosts that they name, and whether there are any.
  record Lists (es hosts made : List Text) : Type 0 where
    holds : (h : Text) → has h made ≡ (has h hosts || any (names h) es)
    same_if : bare es ≡ true → made ≡ hosts
    filled : (hosts ≢ []) ⊎ (bare es ≡ false) → made ≢ []

  add-Lists :
      (x : Text) (es hosts mid made : List Text)
      → Adds (trim_space x) hosts mid
      → Lists es mid made
      → Lists (x ∷ es) hosts made
  unfolding names
  add-Lists x es hosts mid made a l = record {
    holds = λ h. ground (arith, a.holds h, l.holds h);
    same_if = λ u. l.same_if (ground (arith, u)) ∙ a.same_if (ground (arith, u));
    filled = λ f. elim (Bool-cases (is_empty (trim_space x))) [
      | inr n ↦ l.filled (inl (a.filled (inr n)))
      | inl y ↦ elim f [
        | inl full ↦ l.filled (inl (a.filled (inl full)))
        | inr u ↦ l.filled (inr (ground (arith, y, u)))
      ]
    ];
  }

  parse_from-Lists :
      (es hosts made : List Text) → parse_from host_of hosts es ≡ some made → Lists es hosts made
  unfolding parse_from
  parse_from-Lists [] hosts made e =
      let q = unwrap hosts made e in
      record {
        holds = λ h. ground (arith, ap (has h) q);
        same_if = λ u. sym q;
        filled = λ f n. elim f [ inl full ↦ full (q ∙ n) | inr u ↦ absurd (ground (arith, u)) ];
      }
  parse_from-Lists (x ∷ es) hosts made e =
      elim (Option-cases (parse_entry host_of hosts (trim_space x))) [
        | inl n ↦ none_some made (rw (n, parse_from) at e)
        | inr (mid, q) ↦
            add-Lists x es hosts mid made (parse_entry-Adds (trim_space x) hosts mid q)
              (parse_from-Lists es mid made (rw (q, parse_from) at e))
      ]

  allowed :
      (hosts entries : List Text) (origin : Text)
      → Lists entries [] hosts
      → allows host_of hosts origin ≡ (
          bare entries
          || (is_empty origin || elim (extract_host host_of origin) [
            | none ↦ false
            | some h ↦ any (names h) entries
          ]))
  unfolding allows is_empty is_listed has
  allowed [] entries origin l = elim (Bool-cases (bare entries)) [
    | inl y ↦ rw y refl
    | inr n ↦ absurd (l.filled (inr n) refl)
  ]
  allowed (h ∷ hosts) entries [] l = ground arith
  allowed (h ∷ hosts) entries (c ∷ s) l = elim (Bool-cases (bare entries)) [
    | inl y ↦ absurd (cons_nil h hosts (l.same_if y))
    | inr n ↦ rw n (listed (extract_host host_of (c ∷ s)))
  ]
    where
      listed :
          (o : Option Text)
          → is_listed host_of (h ∷ hosts) o
            ≡ elim o [ none ↦ false | some k ↦ any (names k) entries ]
      listed none = refl
      listed (some k) = l.holds k

  -- An allow list that was made from entries lets an origin through where no entry names a host,
  -- where there is no origin, and where an entry names the origin's host.
  pub allows-names :
      (entries hosts : List Text) (origin : Text)
      → parse_origin_allow_list host_of entries ≡ some hosts
      → allows host_of hosts origin ≡ (
          bare entries
          || (is_empty origin || elim (extract_host host_of origin) [
            | none ↦ false
            | some h ↦ any (names h) entries
          ]))
  unfolding parse_origin_allow_list
  allows-names entries hosts origin e =
      allowed hosts entries origin (parse_from-Lists entries [] hosts e)
