-- ===== src/Dashboard/Shapes.antt =====
-- asty/internal/api/dashboard/audit.go: the paths that the comment of `classifyPath` lists.
use asty.Common.{
  ℕ, ◌≡◌, refl, sym, ◌∙◌, ap, false, ◌==◌, List, [], ◌∷◌, ◌++◌, Text, codes, arith, All, same,
  reverse,
}
use mathlib.Core.List.{reverse-append, reverse-reverse, append-nil, append_assoc}
use asty.Broker.Files.{has_slash}
use asty.Gateway.Routing.{split, split_from}
use asty.Dashboard.Audit.{
  skip_slashes, trim_slashes, Classified, classify_node, classify_service, classify_parts,
  classify_path,
}

pub data Shape : Type 0 where
  drain_of pause_of : Text → Shape
  restart_of stop_of : Text → Text → Shape
  scale_of deploy_of : Text → Shape

-- The components of the path of a shape.
pub parts_of : Shape → List Text
parts_of (drain_of node) = codes "nodes" ∷ node ∷ codes "drain" ∷ []
parts_of (pause_of node) = codes "nodes" ∷ node ∷ codes "pause" ∷ []
parts_of (restart_of node alloc) =
    codes "nodes" ∷ node ∷ codes "allocations" ∷ alloc ∷ codes "restart" ∷ []
parts_of (stop_of node alloc) =
    codes "nodes" ∷ node ∷ codes "allocations" ∷ alloc ∷ codes "stop" ∷ []
parts_of (scale_of name) = codes "services" ∷ name ∷ codes "scale" ∷ []
parts_of (deploy_of name) = codes "services" ∷ name ∷ codes "deploy" ∷ []

pub path_of : List Text → Text
path_of [] = []
path_of (part ∷ parts) = 47 ∷ part ++ path_of parts

unfoldable pub IsNamed : Shape → Type 0
IsNamed (drain_of node) = has_slash node ≡ false
IsNamed (pause_of node) = has_slash node ≡ false
IsNamed (restart_of node alloc) = (has_slash node ≡ false) × (has_slash alloc ≡ false)
IsNamed (stop_of node alloc) = (has_slash node ≡ false) × (has_slash alloc ≡ false)
IsNamed (scale_of name) = has_slash name ≡ false
IsNamed (deploy_of name) = has_slash name ≡ false

-- What each shape is classified as.
abbrev target : Text → Text → Text → Text → Text → Classified
target resource action node service alloc = record {
  resource = resource;
  action = action;
  node_id = node;
  service = service;
  alloc_id = alloc;
}

pub expected : Shape → Classified
expected (drain_of node) = target (codes "nodes") (codes "drain") node [] []
expected (pause_of node) = target (codes "nodes") (codes "pause") node [] []
expected (restart_of node alloc) = target (codes "allocations") (codes "restart") node [] alloc
expected (stop_of node alloc) = target (codes "allocations") (codes "stop") node [] alloc
expected (scale_of name) = target (codes "services") (codes "scale") [] name []
expected (deploy_of name) = target (codes "services") (codes "deploy") [] name []

-- The first character of a text is not a slash.
free_head :
    (c : ℕ) (s : Text) → has_slash (c ∷ s) ≡ false → ((c == 47) ≡ false) × (has_slash s ≡ false)
unfolding has_slash
free_head c s h = ground (arith, h)

split_from-plain : (acc s : Text) → has_slash s ≡ false → split_from 47 acc s ≡ (acc ++ s) ∷ []
unfolding split_from
split_from-plain acc [] h = ap (λ t. t ∷ []) (sym (append-nil acc))
split_from-plain acc (c ∷ s) h = rw (free_head c s h).0 (
    split_from-plain (acc ++ c ∷ []) s (free_head c s h).1
    ∙ ap (λ t. t ∷ []) (append_assoc acc (c ∷ []) s))

split_from-cut :
    (acc s t : Text)
    → has_slash s ≡ false
    → split_from 47 acc (s ++ 47 ∷ t) ≡ (acc ++ s) ∷ split_from 47 [] t
unfolding split_from
split_from-cut acc [] t h = ap (λ u. u ∷ split_from 47 [] t) (sym (append-nil acc))
split_from-cut acc (c ∷ s) t h = rw (free_head c s h).0 (
    split_from-cut (acc ++ c ∷ []) s t (free_head c s h).1
    ∙ ap (λ u. u ∷ split_from 47 [] t) (append_assoc acc (c ∷ []) s))

split_from-path_of :
    (p : Text) (ps : List Text)
    → All (λ q. has_slash q ≡ false) (p ∷ ps)
    → split_from 47 [] (p ++ path_of ps) ≡ p ∷ ps
unfolding path_of
split_from-path_of p [] a = ap (split_from 47 []) (append-nil p) ∙ split_from-plain [] p a.0
split_from-path_of p (q ∷ ps) a =
    split_from-cut [] p (q ++ path_of ps) a.0 ∙ ap (λ qs. p ∷ qs) (split_from-path_of q ps a.1)

skip_slashes-free : (c : ℕ) (t : Text) → (c == 47) ≡ false → skip_slashes (c ∷ t) ≡ c ∷ t
unfolding skip_slashes
skip_slashes-free c t h = rw h refl

-- Between the slash at the front and an end that is no slash nothing is cut.
trim_slashes-path :
    (c d : ℕ) (t : Text)
    → (c == 47) ≡ false
    → (d == 47) ≡ false
    → trim_slashes (47 ∷ c ∷ t ++ d ∷ []) ≡ c ∷ t ++ d ∷ []
unfolding trim_slashes skip_slashes
trim_slashes-path c d t h k =
    let w = c ∷ t ++ d ∷ [] in
    let front : skip_slashes (47 ∷ w) ≡ w = skip_slashes-free c (t ++ d ∷ []) h in
    let turned : reverse w ≡ d ∷ reverse (c ∷ t) = reverse-append (c ∷ t) (d ∷ []) in
    let back = ap skip_slashes turned ∙ skip_slashes-free d (reverse (c ∷ t)) k ∙ sym turned in
    ap (λ x. reverse (skip_slashes (reverse x))) front ∙ ap reverse back ∙ reverse-reverse w

-- A path whose first and last characters, apart from its slash, are none.
classify-path :
    (lower : Text → Text) (method : Text) (c d : ℕ) (t p : Text) (ps : List Text)
    → (c == 47) ≡ false
    → (d == 47) ≡ false
    → p ++ path_of ps ≡ c ∷ t ++ d ∷ []
    → All (λ q. has_slash q ≡ false) (p ∷ ps)
    → classify_path lower method (path_of (p ∷ ps)) ≡ classify_parts lower method (p ∷ ps)
unfolding classify_path path_of split
classify-path lower method c d t p ps h k e a =
    ap (λ x. classify_parts lower method (split_from 47 [] x))
      (ap (λ x. trim_slashes (47 ∷ x)) e ∙ trim_slashes-path c d t h k ∙ sym e)
    ∙ ap (classify_parts lower method) (split_from-path_of p ps a)

-- A text that ends with a character.
abbrev Ends : ℕ → Text → Type 0
Ends d s = (u : Text) × (s ≡ u ++ d ∷ [])

Ends-append : (d : ℕ) (x s : Text) → Ends d s → Ends d (x ++ s)
Ends-append d x s (u, e) = (x ++ u, ap (λ t. x ++ t) e ∙ sym (append_assoc x u (d ∷ [])))

classify-ended :
    (lower : Text → Text) (method : Text) (c d : ℕ) (s p : Text) (ps : List Text)
    → (c == 47) ≡ false
    → (d == 47) ≡ false
    → p ++ path_of ps ≡ c ∷ s
    → Ends d s
    → All (λ q. has_slash q ≡ false) (p ∷ ps)
    → classify_path lower method (path_of (p ∷ ps)) ≡ classify_parts lower method (p ∷ ps)
classify-ended lower method c d s p ps h k e (u, f) a =
    classify-path lower method c d u p ps h k (e ∙ ap (λ t. c ∷ t) f) a

-- The path of each shape, whose names have no slash, is classified as that shape, for any method.
pub classify_path-expected :
    (lower : Text → Text) (method : Text) (shape : Shape)
    → IsNamed shape
    → classify_path lower method (path_of (parts_of shape)) ≡ expected shape
unfolding parts_of path_of expected IsNamed classify_parts classify_node classify_service same
    has_slash
classify_path-expected lower method (drain_of node) n =
    classify-ended lower method 110 110 (codes "odes/" ++ (node ++ codes "/drain")) (codes "nodes")
      (node ∷ codes "drain" ∷ []) refl refl refl
      (Ends-append 110 (codes "odes/") (node ++ codes "/drain")
        (Ends-append 110 node (codes "/drain") (codes "/drai", refl)))
      (refl, (n, (refl, tt)))
classify_path-expected lower method (pause_of node) n =
    classify-ended lower method 110 101 (codes "odes/" ++ (node ++ codes "/pause")) (codes "nodes")
      (node ∷ codes "pause" ∷ []) refl refl refl
      (Ends-append 101 (codes "odes/") (node ++ codes "/pause")
        (Ends-append 101 node (codes "/pause") (codes "/paus", refl)))
      (refl, (n, (refl, tt)))
classify_path-expected lower method (restart_of node alloc) n =
    classify-ended lower method 110 116
      (codes "odes/" ++ (node ++ (codes "/allocations/" ++ (alloc ++ codes "/restart"))))
      (codes "nodes") (node ∷ codes "allocations" ∷ alloc ∷ codes "restart" ∷ []) refl refl refl
      (Ends-append 116 (codes "odes/") _ (
        Ends-append 116 node _ (
          Ends-append 116 (codes "/allocations/") _
            (Ends-append 116 alloc (codes "/restart") (codes "/restar", refl)))))
      (refl, (n.0, (refl, (n.1, (refl, tt)))))
classify_path-expected lower method (stop_of node alloc) n =
    classify-ended lower method 110 112
      (codes "odes/" ++ (node ++ (codes "/allocations/" ++ (alloc ++ codes "/stop"))))
      (codes "nodes") (node ∷ codes "allocations" ∷ alloc ∷ codes "stop" ∷ []) refl refl refl
      (Ends-append 112 (codes "odes/") _ (
        Ends-append 112 node _ (
          Ends-append 112 (codes "/allocations/") _
            (Ends-append 112 alloc (codes "/stop") (codes "/sto", refl)))))
      (refl, (n.0, (refl, (n.1, (refl, tt)))))
classify_path-expected lower method (scale_of name) n =
    classify-ended lower method 115 101 (codes "ervices/" ++ (name ++ codes "/scale"))
      (codes "services") (name ∷ codes "scale" ∷ []) refl refl refl
      (Ends-append 101 (codes "ervices/") (name ++ codes "/scale")
        (Ends-append 101 name (codes "/scale") (codes "/scal", refl)))
      (refl, (n, (refl, tt)))
classify_path-expected lower method (deploy_of name) n =
    classify-ended lower method 115 121 (codes "ervices/" ++ (name ++ codes "/deploy"))
      (codes "services") (name ∷ codes "deploy" ∷ []) refl refl refl
      (Ends-append 121 (codes "ervices/") (name ++ codes "/deploy")
        (Ends-append 121 name (codes "/deploy") (codes "/deplo", refl)))
      (refl, (n, (refl, tt)))
