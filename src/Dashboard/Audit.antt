-- ===== src/Dashboard/Audit.antt =====
-- asty/internal/api/dashboard/audit.go: the subject of an audited request. `lower` is
-- `strings.ToLower`.
use asty.Common.{◌==◌, List, [], ◌∷◌, Text, codes, same, if◌then◌else◌, reverse}
use asty.Gateway.Routing.{split}

-- `strings.Trim(path, "/")`.
unfoldable pub skip_slashes : Text → Text
skip_slashes [] = []
skip_slashes (c ∷ t) = let rest = skip_slashes t in if c == 47 then rest else c ∷ t

unfoldable pub trim_slashes : Text → Text
unfolding skip_slashes
trim_slashes t = reverse (skip_slashes (reverse (skip_slashes t)))

pub record Classified : Type 0 where
  pub resource : Text
  pub action : Text
  pub node_id : Text
  pub service : Text
  pub alloc_id : Text

-- A result with the action of the method.
unfoldable pub by_method : (Text → Text) → Text → Text → Text → Text → Text → Classified
by_method lower method resource node service alloc = record {
  resource = resource;
  action = lower method;
  node_id = node;
  service = service;
  alloc_id = alloc;
}

module _ (lower : Text → Text) (method : Text) where
  -- Behind "nodes".
  unfoldable pub classify_node : List Text → Classified
  unfolding by_method
  classify_node [] = by_method lower method (codes "nodes") [] [] []
  classify_node (node ∷ verb ∷ []) =
      let found : Text → Classified = λ action. record {
        resource = codes "nodes";
        action = action;
        node_id = node;
        service = [];
        alloc_id = [];
      } in
      if same verb (codes "drain")
      then found (codes "drain")
      else if same verb (codes "pause")
      then found (codes "pause")
      else by_method lower method (codes "nodes") node [] []
  classify_node (node ∷ verb ∷ alloc ∷ rest) =
      let found : Text → Classified = λ action. record {
        resource = codes "allocations";
        action = action;
        node_id = node;
        service = [];
        alloc_id = alloc;
      } in
      let plain = by_method lower method (codes "nodes") node [] alloc in
      let acted : Classified = elim rest [
        | [] ↦ plain
        | act ∷ more ↦ elim more [
          | [] ↦
              if same act (codes "restart")
              then found (codes "restart")
              else if same act (codes "stop")
              then found (codes "stop")
              else plain
          | m ∷ ms ↦ plain
        ]
      ] in
      if same verb (codes "allocations")
      then acted
      else by_method lower method (codes "nodes") node [] []
  classify_node (node ∷ []) = by_method lower method (codes "nodes") node [] []

  -- Behind "services".
  unfoldable pub classify_service : List Text → Classified
  unfolding by_method
  classify_service (name ∷ verb ∷ []) =
      let found : Text → Classified = λ action. record {
        resource = codes "services";
        action = action;
        node_id = [];
        service = name;
        alloc_id = [];
      } in
      if same verb (codes "scale")
      then found (codes "scale")
      else if same verb (codes "deploy")
      then found (codes "deploy")
      else by_method lower method (codes "services") [] name []
  classify_service [] = by_method lower method (codes "services") [] [] []
  classify_service (name ∷ rest) = by_method lower method (codes "services") [] name []

  unfoldable pub classify_parts : List Text → Classified
  unfolding classify_node classify_service by_method
  classify_parts [] = by_method lower method (codes "unknown") [] [] []
  classify_parts ([] ∷ rest) = by_method lower method (codes "unknown") [] [] []
  classify_parts ((c ∷ r) ∷ rest) =
      if same (c ∷ r) (codes "nodes")
      then classify_node rest
      else if same (c ∷ r) (codes "services")
      then classify_service rest
      else by_method lower method (c ∷ r) [] [] []

  -- `classifyPath`.
  unfoldable pub classify_path : Text → Classified
  unfolding classify_parts trim_slashes
  classify_path path = classify_parts (split 47 (trim_slashes path))
