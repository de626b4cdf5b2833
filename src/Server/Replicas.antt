-- ===== src/Server/Replicas.antt =====
-- asty/internal/server/streamreplicas.go, and `capReplicas` of kv.go: the replica counts of the
-- streams. `accept` is what an update of a stream on the bus comes to.
use asty.Common.{
  ℕ, ◌+◌, Bool, not, ◌&&◌, ◌||◌, Option, none, some, List, [], ◌∷◌, Text, codes, same, has_prefix,
  if◌then◌else◌, drop,
}
use asty.Common.Int.{ℤ, pos, ltb_ℤ, eqb_ℤ}

-- A bucket that a service declares.
pub record KvBucket : Type 0 where
  pub bucket : Text
  pub replicas : ℤ

pub record Stream : Type 0 where
  pub name : Text
  pub replicas : ℤ

-- `ClusterConfig`.
pub record ClusterConfig : Type 0 where
  pub system_kv_replicas : ℤ
  pub app_kv_replicas : ℤ

-- `ClusterConfig.Validate`.
unfoldable pub is_valid_cluster : ClusterConfig → Bool
is_valid_cluster c =
    not (ltb_ℤ c.system_kv_replicas (pos 1)) && not (ltb_ℤ c.app_kv_replicas (pos 1))

unfoldable pub cap_replicas : ℤ → ℤ → ℤ
cap_replicas size ceiling =
    let capped = if ltb_ℤ ceiling size then ceiling else size in
    if ltb_ℤ capped (pos 1) then pos 1 else capped

unfoldable pub is_system_stream : Text → Bool
is_system_stream name = same name (codes "KV_asty-cluster") || same name (codes "KV_asty-leader")

-- The bucket of a stream, `none` where the prefix "KV_" is missing.
unfoldable pub bucket_of : Text → Option Text
bucket_of name = if has_prefix name (codes "KV_") then some (drop 3 name) else none

-- The ceiling that a declared bucket gets.
unfoldable pub ceiling_of : ClusterConfig → KvBucket → ℤ
ceiling_of c kv =
    if ltb_ℤ (pos 0) kv.replicas && ltb_ℤ kv.replicas c.app_kv_replicas
    then kv.replicas
    else c.app_kv_replicas

-- The loops over the services and their buckets; the first one counts.
unfoldable pub find_bucket : Text → List KvBucket → Option KvBucket
find_bucket b [] = none
find_bucket b (kv ∷ kvs) =
    let rest = find_bucket b kvs in if same kv.bucket b then some kv else rest

unfoldable pub find_declared : Text → List (List KvBucket) → Option KvBucket
unfolding find_bucket
find_declared b [] = none
find_declared b (kvs ∷ services) = elim (find_bucket b kvs) [
  | none ↦ find_declared b services
  | some kv ↦ some kv
]

-- `targetReplicasFor`; `none` is its 0, a stream that is left alone.
unfoldable pub target_replicas_for : ClusterConfig → List (List KvBucket) → Text → ℤ → Option ℤ
unfolding is_system_stream cap_replicas bucket_of find_declared ceiling_of
target_replicas_for c services name size =
    if is_system_stream name
    then some (cap_replicas size c.system_kv_replicas)
    else elim (bucket_of name) [
      | none ↦ none
      | some b ↦ elim (find_declared b services) [
        | none ↦ none
        | some kv ↦ some (cap_replicas size (ceiling_of c kv))
      ]
    ]

module _ {B : Type 0} (accept : Text → ℤ → B → Bool × B) (c : ClusterConfig)
    (services : List (List KvBucket)) where
  -- `setStreamReplicas`.
  unfoldable pub set_stream_replicas : Stream → ℤ → B → Stream × B
  set_stream_replicas s target b =
      let (ok, b₁) = accept s.name target b in
      ((if ok then record s { replicas = target } else s), b₁)

  -- One stream with its target: what it is after the pass, the updates that were asked for, and the
  -- state.
  unfoldable pub reconcile_to : Option ℤ → Stream → B → Stream × ℕ × B
  unfolding set_stream_replicas
  reconcile_to none s b = (s, 0, b)
  reconcile_to (some target) s b =
      let (s₁, b₁) = set_stream_replicas s target b in
      if eqb_ℤ target s.replicas then (s, 0, b) else (s₁, 1, b₁)

  unfoldable pub reconcile_stream : Stream → ℤ → B → Stream × ℕ × B
  unfolding reconcile_to
  reconcile_stream s size b = reconcile_to (target_replicas_for c services s.name size) s b

  -- `reconcileStreamReplicas` over the streams that the bus lists.
  unfoldable pub reconcile_streams : List Stream → ℤ → B → List Stream × ℕ × B
  unfolding reconcile_stream
  reconcile_streams [] size b = ([], 0, b)
  reconcile_streams (s ∷ ss) size b =
      let (s₁, n, b₁) = reconcile_stream s size b in
      let (ss₁, m, b₂) = reconcile_streams ss size b₁ in (s₁ ∷ ss₁, n + m, b₂)
