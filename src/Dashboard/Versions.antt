-- ===== src/Dashboard/Versions.antt =====
-- asty/internal/api/dashboard/versions.go: the cache of a repository's releases. `fetch` asks GitHub for
-- the tags, some of which may be empty; `none` is an error.
use asty.Common.{ℕ, ◌+◌, ltb, Option, none, some, List, [], Text, if◌then◌else◌, keep, not, same}
use asty.Common.Map.{Map, lookup, insert}

-- 5 min, in nanoseconds.
abbrev pub versions_cache_ttl : ℕ
versions_cache_ttl = 300000000000

pub record VersionsEntry : Type 0 where
  pub versions : List Text
  pub expires : ℕ

-- `get` at a time.
unfoldable pub cached_versions : Text → Map VersionsEntry → ℕ → Option (List Text)
cached_versions repo cache now = elim (lookup repo cache) [
  | none ↦ none
  | some e ↦ if ltb e.expires now then none else some e.versions
]

-- `put` at a time.
unfoldable pub put_versions : Text → List Text → Map VersionsEntry → ℕ → Map VersionsEntry
put_versions repo versions cache now =
    insert repo (record { versions = versions; expires = now + versions_cache_ttl }) cache

module _ {B : Type 0} (fetch : Text → B → Option (List Text) × B) where
  unfoldable pub fetched_versions :
      Text
      → Map VersionsEntry
      → ℕ
      → Option (List Text) × B
      → Option (List Text) × Map VersionsEntry × B
  unfolding put_versions
  fetched_versions repo cache now (none, b) = (none, cache, b)
  fetched_versions repo cache now (some tags, b) =
      let versions = keep (λ t. not (same t [])) tags in
      (some versions, put_versions repo versions cache now, b)

  -- `fetchGitHubVersions`: it reads the cache at `now` and fills it at `later`.
  unfoldable pub fetch_github_versions :
      Text → Map VersionsEntry → ℕ → ℕ → B → Option (List Text) × Map VersionsEntry × B
  unfolding cached_versions fetched_versions
  fetch_github_versions repo cache now later b = elim (cached_versions repo cache now) [
    | some versions ↦ (some versions, cache, b)
    | none ↦ fetched_versions repo cache later (fetch repo b)
  ]
