-- ===== src/Kv/Nodes.antt =====
-- asty/internal/infra/kv/nodes.go, and the drain record of drains.go.
use asty.Common.{Option, none, some, List, [], ◌∷◌, Text, codes, ◌++◌}
use asty.Types.Node.{NodeInfo}
use asty.Kv.Store.{Store, missing, unreadable, entry, Fetch, KvError, bad_data}
use asty.Kv.Allocations.{parsed_snapshot, after_write}

-- The state after a read.
state_of : {B : Type 0} → Fetch B → B
state_of (missing b) = b
state_of (unreadable b) = b
state_of (entry v revision b) = b

module _ {B : Type 0} (s : Store B) where
  -- `GetNode`: `none` is an error, a missing key too.
  unfoldable pub get_node : Text → B → Option NodeInfo × B
  get_node id b = elim (s.get (codes "node." ++ id) b) [
    | missing b₁ ↦ (none, b₁)
    | unreadable b₁ ↦ (none, b₁)
    | entry v revision b₁ ↦ (s.nodes.unmarshal v, b₁)
  ]

  unfoldable pub list_nodes : B → Option (List NodeInfo) × B
  unfolding parsed_snapshot
  list_nodes b = parsed_snapshot s.nodes (s.snapshot (codes "node.*") b)

  unfoldable pub remove_node : Text → B → Option KvError × B
  unfolding after_write
  remove_node id b = after_write (s.delete (codes "node." ++ id) b)

  -- `UpdateNode`, with the heartbeat at the time of the call. A record that stands in the bucket is
  -- overwritten under its revision. The time to live and `CreatedAt` are left out.
  unfoldable pub update_node : NodeInfo → B → Option KvError × B
  unfolding after_write state_of
  update_node n b =
      let (t, b₁) = s.now b in
      let key = codes "node." ++ n.id in
      let fetched = s.get key b₁ in
      elim (s.nodes.marshal (record n { last_seen = t })) [
        | none ↦ (some bad_data, state_of fetched)
        | some v ↦ elim fetched [
          | missing b₂ ↦ after_write (s.put key v b₂)
          | unreadable b₂ ↦ after_write (s.put key v b₂)
          | entry w revision b₂ ↦ after_write (s.update key v revision b₂)
        ]
      ]

  -- `PutDrain`; an empty ID is refused.
  unfoldable pub put_drain : Text → Text → B → Option KvError × B
  unfolding after_write
  put_drain [] payload b = (some bad_data, b)
  put_drain (c ∷ id) payload b =
      after_write (s.put (codes "node." ++ (c ∷ id) ++ codes ".drain") payload b)

  -- `GetDrain`: an error, or the payload if there is one.
  unfoldable pub get_drain : Text → B → Option (Option Text) × B
  get_drain id b = elim (s.get (codes "node." ++ id ++ codes ".drain") b) [
    | missing b₁ ↦ (some none, b₁)
    | unreadable b₁ ↦ (none, b₁)
    | entry v revision b₁ ↦ (some (some v), b₁)
  ]

  -- `DeleteDrain`.
  unfoldable pub delete_drain : Text → B → Option KvError × B
  unfolding after_write
  delete_drain id b = after_write (s.delete (codes "node." ++ id ++ codes ".drain") b)
