-- ===== src/Gateway/Subjects.antt =====
-- What reaches the bus: the subject of a request has the segments of its path as its tokens, and
-- nothing else.
use asty.Common.{
  ℕ, ◌≡◌, ◌≢◌, refl, ap, sym, ◌∙◌, inl, inr, Bool, true, false, ◌==◌, List, [], ◌∷◌, ◌++◌, Text,
  codes, same, arith, every, Bool-cases, subst, All,
}
use asty.Gateway.Routing.{
  dot, split_from, split, join, is_token_byte, is_token, Routed, proxied, last_part, by_last,
  route_parts, route, subject, slash, trim,
}

append_assoc : (xs ys zs : Text) → (xs ++ ys) ++ zs ≡ xs ++ (ys ++ zs)
append_assoc [] ys zs = refl
append_assoc (x ∷ xs) ys zs = ap (λ t. x ∷ t) (append_assoc xs ys zs)

append_nil : (xs : Text) → xs ++ [] ≡ xs
append_nil [] = refl
append_nil (x ∷ xs) = ap (λ t. x ∷ t) (append_nil xs)

token_byte-dot : (c : ℕ) → is_token_byte c ≡ true → (c == dot) ≡ false
unfolding is_token_byte
token_byte-dot c h = ground arith

every_cons :
    (c : ℕ) (s : Text)
    → every is_token_byte (c ∷ s) ≡ true
    → ((c == dot) ≡ false) × (every is_token_byte s ≡ true)
every_cons c s h = ground (arith, token_byte-dot c, h)

-- A text without a dot is one token; a dot ends it.
split_from-end :
    (acc s : Text) → every is_token_byte s ≡ true → split_from dot acc s ≡ (acc ++ s) ∷ []
unfolding split_from
split_from-end acc [] h = ap (λ t. t ∷ []) (sym (append_nil acc))
split_from-end acc (c ∷ s) h = rw (every_cons c s h).0 (
    split_from-end (acc ++ c ∷ []) s (every_cons c s h).1
    ∙ ap (λ t. t ∷ []) (append_assoc acc (c ∷ []) s))

split_from-dot :
    (acc s t : Text)
    → every is_token_byte s ≡ true
    → split_from dot acc (s ++ dot ∷ t) ≡ (acc ++ s) ∷ split_from dot [] t
unfolding split_from
split_from-dot acc [] t h = ap (λ x. x ∷ split_from dot [] t) (sym (append_nil acc))
split_from-dot acc (c ∷ s) t h = rw (every_cons c s h).0 (
    split_from-dot (acc ++ c ∷ []) s t (every_cons c s h).1
    ∙ ap (λ x. x ∷ split_from dot [] t) (append_assoc acc (c ∷ []) s))

is_token-bytes : (p : Text) → is_token p ≡ true → every is_token_byte p ≡ true
unfolding is_token
is_token-bytes [] h = refl
is_token-bytes (c ∷ p) h = h

split_from-join :
    (p : Text) (ps : List Text)
    → every is_token (p ∷ ps) ≡ true
    → split_from dot [] (join (p ∷ ps)) ≡ p ∷ ps
unfolding join
split_from-join p [] h = split_from-end [] p (is_token-bytes p (ground (arith, h)))
split_from-join p (q ∷ ps) h =
    split_from-dot [] p (join (q ∷ ps)) (is_token-bytes p (ground (arith, h)))
    ∙ ap (λ t. p ∷ t) (split_from-join q ps (ground (arith, h)))

-- The tokens of the bus in a subject of `handleHTTP`.
split-subject :
    (service : Text) (p : Text) (ps : List Text)
    → every is_token (service ∷ (p ∷ ps)) ≡ true
    → split dot (subject service (p ∷ ps)) ≡ codes "api" ∷ (codes "v1" ∷ (service ∷ (p ∷ ps)))
unfolding split subject is_token_byte
split-subject service p ps h =
    split_from-dot [] (codes "api") (codes "v1." ++ service ++ dot ∷ join (p ∷ ps)) refl
    ∙ ap (λ t. codes "api" ∷ t)
        (split_from-dot [] (codes "v1") (service ++ dot ∷ join (p ∷ ps)) refl
          ∙ ap (λ t. codes "v1" ∷ t) (split_from-join service (p ∷ ps) h))

every→All : (ps : List Text) → every is_token ps ≡ true → All (λ p. is_token p ≡ true) ps
every→All [] h = tt
every→All (p ∷ ps) h = (ground (arith, h), every→All ps (ground (arith, h)))

-- A request that goes to the bus.
pub record IsForwarded (path service : Text) (parts : List Text) : Type 0 where
  pub segments : split slash (trim path) ≡ service ∷ parts
  pub tokens : All (λ p. is_token p ≡ true) (service ∷ parts)
  pub subject_tokens :
      split dot (subject service parts) ≡ codes "api" ∷ (codes "v1" ∷ (service ∷ parts))

-- The segments that a routed request goes on with.
segments_of : Routed → List Text
segments_of (proxied s ps) = s ∷ ps
segments_of _ = []

parts_of : Routed → List Text
parts_of (proxied s ps) = ps
parts_of _ = []

cons_nil : (p : Text) (ps : List Text) → p ∷ ps ≢ []
cons_nil p ps e = cc

by_last-proxied :
    (ws get : Bool) (s service : Text) (ps parts : List Text)
    → by_last ws get s ps ≡ proxied service parts
    → (s ∷ ps ≡ service ∷ parts) × (parts ≢ [])
unfolding by_last segments_of parts_of
by_last-proxied true true s service ps parts e = cc
by_last-proxied true false s service ps parts e = cc
by_last-proxied false get s service [] parts e = cc
by_last-proxied false get s service (p ∷ ps) parts e =
    (ap segments_of e, λ n. cons_nil p ps (ap parts_of e ∙ n))

forwarded :
    (path s service : Text) (ps parts : List Text)
    → split slash (trim path) ≡ s ∷ ps
    → every is_token (s ∷ ps) ≡ true
    → s ∷ ps ≡ service ∷ parts
    → parts ≢ []
    → IsForwarded path service parts
forwarded path s service ps [] q h e n = absurd (n refl)
forwarded path s service ps (p ∷ parts) q h e n =
    let k = subst (λ ts. every is_token ts ≡ true) e h in
    record {
      segments = q ∙ e;
      tokens = every→All (service ∷ (p ∷ parts)) k;
      subject_tokens = split-subject service p parts k;
    }

route_parts-proxied :
    (path service : Text) (get : Bool) (ps parts : List Text)
    → split slash (trim path) ≡ ps
    → route_parts get ps ≡ proxied service parts
    → IsForwarded path service parts
unfolding route_parts segments_of
route_parts-proxied path service get [] parts q e = cc
route_parts-proxied path service get ([] ∷ ps) parts q e = cc
route_parts-proxied path service get ((c ∷ s) ∷ ps) parts q e =
    elim (Bool-cases (every is_token ((c ∷ s) ∷ ps))) [
      | inl ok ↦
          let (f, n) =
            by_last-proxied (same (last_part (c ∷ s) ps) (codes "ws")) get (c ∷ s) service ps parts
              (rw ok at e) in
          forwarded path (c ∷ s) service ps parts q ok f n
      | inr bad ↦ absurd (cons_nil service parts (sym (ap segments_of (rw bad at e))))
    ]

-- A path that `route` sends to the bus is a list of segments without wildcards, dots and blanks, none
-- of them empty, and the tokens of its subject are "api", "v1" and these segments.
pub route-IsForwarded :
    (get : Bool) (path service : Text) (parts : List Text)
    → route get path ≡ proxied service parts
    → IsForwarded path service parts
unfolding route
route-IsForwarded get path service parts e =
    route_parts-proxied path service get (split slash (trim path)) parts refl e
