-- ===== src/Gateway/Routing.antt =====
-- asty/internal/api/gateway/routing.go, http.go, errors.go and middleware.go: the way of a request to
-- its subject on the bus, and the status of the answer. A path is the one after the prefix.
use asty.Common.{
  ℕ, zero, suc, ◌-◌, ◌==◌, leb, Bool, true, false, ◌&&◌, ◌||◌, Option, none, some, List, [], ◌∷◌,
  ◌++◌, reverse, Text, codes, same, if◌then◌else◌, every,
}
use asty.Common.Int.{ℤ, pos, pos_part, ltb_ℤ, leb_ℤ}

abbrev pub slash : ℕ
slash = 47

abbrev pub dot : ℕ
dot = 46

-- `strings.Trim(s, "/")`.
unfoldable pub trim_left : Text → Text
trim_left [] = []
trim_left (c ∷ s) = let rest = trim_left s in if c == slash then rest else c ∷ s

unfoldable pub trim : Text → Text
unfolding trim_left
trim s = reverse (trim_left (reverse (trim_left s)))

-- `strings.Split` on one byte: one part more than there are separators.
unfoldable pub split_from : ℕ → Text → Text → List Text
split_from sep acc [] = acc ∷ []
split_from sep acc (c ∷ s) =
    if c == sep then acc ∷ split_from sep [] s else split_from sep (acc ++ c ∷ []) s

unfoldable pub split : ℕ → Text → List Text
unfolding split_from
split sep s = split_from sep [] s

-- `strings.Join(parts, ".")`.
unfoldable pub join : List Text → Text
join [] = []
join (p ∷ []) = p
join (p ∷ (q ∷ ps)) = p ++ dot ∷ join (q ∷ ps)

abbrev pub between : ℕ → ℕ → ℕ → Bool
between a b c = leb a c && leb c b

-- `validSubjectToken`: letters, digits, `_` and `-`, one at least.
unfoldable pub is_token_byte : ℕ → Bool
is_token_byte c = between 65 90 c || between 97 122 c || between 48 57 c || c == 95 || c == 45

unfoldable pub is_token : Text → Bool
unfolding is_token_byte
is_token [] = false
is_token (c ∷ s) = is_token_byte c && every is_token_byte s

-- What `route` comes to; the last four are counted as valid requests of the service.
pub data Routed : Type 0 where
  service_required invalid_segment : Routed
  bad_method method_required web_socket : Text → Routed
  proxied : Text → List Text → Routed

unfoldable pub last_part : Text → List Text → Text
last_part p [] = p
last_part p (q ∷ ps) = last_part q ps

-- The part of `route` behind the check of the segments.
unfoldable pub by_last : Bool → Bool → Text → List Text → Routed
by_last true true service parts = web_socket service
by_last true false service parts = bad_method service
by_last false get service [] = method_required service
by_last false get service (p ∷ ps) = proxied service (p ∷ ps)

unfoldable pub route_parts : Bool → List Text → Routed
unfolding by_last last_part is_token
route_parts get [] = service_required
route_parts get ([] ∷ ps) = service_required
route_parts get ((c ∷ s) ∷ ps) =
    if every is_token ((c ∷ s) ∷ ps)
    then by_last (same (last_part (c ∷ s) ps) (codes "ws")) get (c ∷ s) ps
    else invalid_segment

-- `route`, by whether the method is GET.
unfoldable pub route : Bool → Text → Routed
unfolding route_parts split trim
route get path = route_parts get (split slash (trim path))

-- The service that `bumpService` counts.
unfoldable pub counted : Routed → Option Text
counted service_required = none
counted invalid_segment = none
counted (bad_method s) = some s
counted (method_required s) = some s
counted (web_socket s) = some s
counted (proxied s ps) = some s

-- The subject of `handleHTTP` and the base of `handleWS`.
unfoldable pub subject : Text → List Text → Text
unfolding join
subject service parts = codes "api.v1." ++ service ++ dot ∷ join parts

unfoldable pub ws_subject : Text → Text
ws_subject service = codes "api.v1." ++ service ++ codes ".ws"

-- `middlewareOrigin`: to the next handler without or with the headers of a shared origin, a refusal,
-- or the answer to a preflight.
pub data Checked : Type 0 where
  passes shares forbidden preflight : Checked

unfoldable pub middleware_origin : (Text → Bool) → Text → Bool → Checked
middleware_origin allows [] options = passes
middleware_origin allows (c ∷ s) options =
    if allows (c ∷ s) then if options then preflight else shares else forbidden

-- What a request on the bus comes to.
pub data Reply : Type 0 where
  no_responders deadline failed : Reply
  answered : Option Text → Reply

-- `natsRoundTrip`: the answers of the attempts in order, each with whether the context is over after
-- it. The list ends with an attempt after which it is.
unfoldable pub nats_round_trip : List (Reply × Bool) → ℕ → Reply × ℕ
nats_round_trip [] attempts = (no_responders, attempts)
nats_round_trip ((no_responders, over) ∷ rs) attempts =
    let rest = nats_round_trip rs (suc attempts) in
    if over then (no_responders, suc attempts) else rest
nats_round_trip ((deadline, over) ∷ rs) attempts = (deadline, suc attempts)
nats_round_trip ((failed, over) ∷ rs) attempts = (failed, suc attempts)
nats_round_trip ((answered h, over) ∷ rs) attempts = (answered h, suc attempts)

-- `readServiceError`, the code; `atoi` is `strconv.Atoi`.
unfoldable pub read_service_error : (Text → Option ℤ) → Option Text → ℕ
read_service_error atoi none = 0
read_service_error atoi (some []) = 0
read_service_error atoi (some (c ∷ raw)) = elim (atoi (c ∷ raw)) [
  | none ↦ 0
  | some n ↦ if leb_ℤ n (pos 0) then 0 else pos_part n
]

-- The status of `writeResponse`.
unfoldable pub status_code : ℕ → ℕ
status_code zero = 200
status_code (suc n) = if between 100 599 (suc n) then suc n else 500

-- The status of `handleHTTP`, by whether the client cancelled: `natsRequestErrStatus` or
-- `writeResponse`.
unfoldable pub http_status : (Text → Option ℤ) → Bool → Reply → ℕ
unfolding status_code read_service_error
http_status atoi gone (answered h) = status_code (read_service_error atoi h)
http_status atoi gone deadline = if gone then 499 else 504
http_status atoi gone no_responders = if gone then 499 else 503
http_status atoi gone failed = if gone then 499 else 503

-- `wsConnGuard`: the counter after it, and whether the connection is let in; and the release.
unfoldable pub ws_conn_guard : ℤ → ℕ → Bool × ℕ
ws_conn_guard max n = if ltb_ℤ max (pos (suc n)) then (false, n) else (true, suc n)

unfoldable pub release_conn : ℕ → ℕ
release_conn n = n - 1
