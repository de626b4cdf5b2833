-- ===== src/Proximity/Matrix.antt =====
-- asty/internal/domain/proximity/matrix.go and sort.go. The matrix is a map of maps; a row that is
-- missing reads as an empty one. The text of the configuration is
-- not parsed here.
use asty.Common.{Bool, Option, none, some, List, [], ◌∷◌, Text, same, if◌then◌else◌, keep, not, any}
use asty.Common.Int.{ℤ, pos, ltb_ℤ}
use asty.Common.Map.{Map, lookup, insert}
use asty.Common.Sort.{sort}

abbrev pub Matrix : Type 0
Matrix = Map (Map ℤ)

abbrev pub unknown_latency : ℤ
unknown_latency = pos 1000

unfoldable pub row_or_empty : Option (Map ℤ) → Map ℤ
row_or_empty none = []
row_or_empty (some row) = row

-- `m[a][b] = v`, with the row made when it is nil.
unfoldable pub set_cell : Matrix → Text → Text → ℤ → Matrix
unfolding row_or_empty
set_cell m a b v = insert a (insert b v (row_or_empty (lookup a m))) m

unfoldable pub set_latency : Matrix → Text → Text → ℤ → Matrix
unfolding set_cell
set_latency m dc1 dc2 latency = set_cell (set_cell m dc1 dc2 latency) dc2 dc1 latency

-- `GetLatency`: `none` is `(0, false)`.
unfoldable pub get_latency : Matrix → Text → Text → Option ℤ
unfolding row_or_empty
get_latency m dc1 dc2 =
    if same dc1 dc2 then some (pos 0) else lookup dc2 (row_or_empty (lookup dc1 m))

unfoldable pub latency_or : Matrix → Text → Text → ℤ → ℤ
unfolding get_latency
latency_or m from to fallback = elim (get_latency m from to) [ none ↦ fallback | some v ↦ v ]

-- The largest int.
abbrev pub max_int : ℤ
max_int = pos 9223372036854775807

unfoldable pub closer : Text → ℤ → Text → Option ℤ → Text × ℤ
closer near least dc none = (near, least)
closer near least dc (some l) = if ltb_ℤ l least then (dc, l) else (near, least)

-- The loop of `GetNearestDatacenter`, with `nearest` and `minLatency`; `first` is `candidates[0]`.
unfoldable pub nearest_loop : Matrix → Text → Text → Text → ℤ → List Text → Text
unfolding closer
nearest_loop m source first near least [] = if same near [] then first else near
nearest_loop m source first near least (dc ∷ dcs) =
    let (near', least') = closer near least dc (get_latency m source dc) in
    let rest = nearest_loop m source first near' least' dcs in if same dc source then dc else rest

unfoldable pub nearest_datacenter : Matrix → Text → List Text → Text
unfolding nearest_loop
nearest_datacenter m source [] = []
nearest_datacenter m source (dc ∷ dcs) = nearest_loop m source dc [] max_int (dc ∷ dcs)

unfoldable pub by_latency : Matrix → Text → Text → Text → Bool
by_latency m source a b =
    ltb_ℤ (latency_or m source a unknown_latency) (latency_or m source b unknown_latency)

unfoldable pub sort_datacenters : Matrix → Text → List Text → List Text
unfolding by_latency
sort_datacenters m source dcs =
    let others = sort (by_latency m source) (keep (λ dc. not (same dc source)) dcs) in
    if any (λ dc. same dc source) dcs then source ∷ others else others
