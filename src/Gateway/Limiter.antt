-- ===== src/Gateway/Limiter.antt =====
-- asty/internal/api/gateway/ratelimit.go: a token bucket for each address, in tables of bounded size.
-- `rate.Limiter` is the type `L`: `fresh` makes one from a rate and a burst, `allow` asks it at a
-- time. The type `F` of rates is floating point in Go; `positive` is the test `> 0`. The mutex makes
-- each call one step. A table's LRU list is written from its back, the least recent, to its front.
pub mod Table
pub mod Sweep
pub mod Matching
use asty.Common.{
  ℕ, suc, Bool, true, false, not, ◌&&◌, ◌||◌, Option, none, some, List, [], ◌∷◌, ◌++◌, Text, ltb,
  leb, same, if◌then◌else◌, length, keep, has_prefix,
}
use asty.Common.Int.{ℤ, pos, leb_ℤ, ltb_ℤ}
use asty.Common.Map.{Map, lookup, insert, erase, del}
use asty.Common.Sort.{sort}

pub record IpEntry (L : Type 0) : Type 0 where
  pub limiter : L
  pub last_seen : ℕ

-- `ipTable`: the hash map and the list.
pub record IpTable (L : Type 0) : Type 0 where
  pub m : Map (IpEntry L)
  pub lst : List Text

-- A rule of a service, `types.RateLimitRule`.
pub record RateLimitRule (F : Type 0) : Type 0 where
  pub path_prefix : Text
  pub rate : F
  pub burst : ℤ

pub record PathRule (F L : Type 0) : Type 0 where
  pub prefix : Text
  pub rate : F
  pub burst : ℤ
  pub table : IpTable L

module _ {L : Type 0} where
  unfoldable pub new_ip_table : IpTable L
  new_ip_table = record { m = []; lst = [] }

  -- The eviction of `get`: the back of the list goes.
  unfoldable pub evict_from : List Text → IpTable L → IpTable L
  evict_from [] t = t
  evict_from (oldest ∷ rest) t = record { m = erase oldest t.m; lst = rest }

  unfoldable pub push_front : Text → IpEntry L → IpTable L → IpTable L
  push_front ip e t = record { m = insert ip e t.m; lst = t.lst ++ ip ∷ [] }

  -- `get`, from the look-up on; `l` is the limiter that a new entry gets.
  unfoldable pub found : ℤ → Text → L → ℕ → IpTable L → Option (IpEntry L) → L × IpTable L
  unfolding evict_from push_front
  found max_ips ip l now t (some e) = (
    e.limiter,
    record { m = insert ip (record e { last_seen = now }) t.m; lst = del ip t.lst ++ ip ∷ [] },
  )
  found max_ips ip l now t none =
      let room = if leb_ℤ max_ips (pos (length t.m)) then evict_from t.lst t else t in
      (l, push_front ip (record { limiter = l; last_seen = now }) room)

  unfoldable pub get : ℤ → Text → L → ℕ → IpTable L → L × IpTable L
  unfolding found
  get max_ips ip l now t = found max_ips ip l now t (lookup ip t.m)

  -- The loop of `cleanupExpired`, from the back of the list on. `none` stands for the panic on an
  -- address that is in the list and not in the map.
  unfoldable pub sweep : ℕ → List Text → Map (IpEntry L) → Option (IpTable L)
  sweep cutoff [] m = some (record { m = m; lst = [] })
  sweep cutoff (ip ∷ rest) m =
      let next = sweep cutoff rest (erase ip m) in
      elim (lookup ip m) [
        | none ↦ none
        | some e ↦ if ltb e.last_seen cutoff then next else some (record { m = m; lst = ip ∷ rest })
      ]

  unfoldable pub cleanup_expired : ℕ → IpTable L → Option (IpTable L)
  unfolding sweep
  cleanup_expired cutoff t = sweep cutoff t.lst t.m

  -- `Allow` on the limiter of an entry, which is changed in place.
  unfoldable pub settle : Text → L → IpTable L → IpTable L
  settle ip l t = elim (lookup ip t.m) [
    | none ↦ t
    | some e ↦ record t { m = insert ip (record e { limiter = l }) t.m }
  ]

is_empty : Text → Bool
is_empty [] = true
is_empty (c ∷ s) = false

-- `len(rules[i].prefix) > len(rules[j].prefix)`.
abbrev pub longer : {F L : Type 0} → PathRule F L → PathRule F L → Bool
longer a b = ltb (length b.prefix) (length a.prefix)

-- The rules that `newRateLimiter` compiles.
unfoldable pub accepted : {F : Type 0} → (F → Bool) → RateLimitRule F → Bool
unfolding is_empty
accepted positive sr = not (is_empty sr.path_prefix) && positive sr.rate && ltb_ℤ (pos 0) sr.burst

unfoldable pub compiled : {F L : Type 0} → (F → Bool) → List (RateLimitRule F) → List (PathRule F L)
unfolding accepted new_ip_table
compiled positive [] = []
compiled positive (sr ∷ srs) =
    let rest = compiled positive srs in
    if accepted positive sr
    then record { prefix = sr.path_prefix; rate = sr.rate; burst = sr.burst; table = new_ip_table }
      ∷ rest
    else rest

unfoldable pub new_rules :
    {F L : Type 0} → (F → Bool) → List (RateLimitRule F) → List (PathRule F L)
unfolding compiled
new_rules positive service_rules = sort longer (compiled positive service_rules)

-- `allowPath`: the answer and, if a rule matched, its prefix, and the rules after the call.
module _ {F L : Type 0} (fresh : F → ℤ → L) (allow : L → ℕ → Bool × L) (max_ips : ℤ) where
  unfoldable pub ask : PathRule F L → Text → ℕ → Bool × PathRule F L
  unfolding settle get
  ask r ip now =
      let (l, t) = get max_ips ip (fresh r.rate r.burst) now r.table in
      let (ok, l') = allow l now in (ok, record r { table = settle ip l' t })

  unfoldable pub allow_path :
      List (PathRule F L) → Text → Text → ℕ → (Bool × Option Text) × List (PathRule F L)
  unfolding ask
  allow_path [] ip path now = ((true, none), [])
  allow_path (r ∷ rs) ip path now =
      let (answer, rs') = allow_path rs ip path now in
      let (ok, r') = ask r ip now in
      if has_prefix r.prefix path then ((ok, some r.prefix), r' ∷ rs) else (answer, r ∷ rs')
