-- ===== src/Dashboard/Cached.antt =====
-- The cache of releases between a fetch and its expiry.
use asty.Common.{ℕ, ◌+◌, ◌≤◌, ◌≡◌, Option, none, some, List, Text, arith, keep, not, same, []}
use asty.Common.Map.{Map, lookup-insert_self}
use asty.Dashboard.Versions.{
  versions_cache_ttl, VersionsEntry, cached_versions, put_versions, fetched_versions,
  fetch_github_versions,
}

module _ {B : Type 0} (fetch : Text → B → Option (List Text) × B) where
  cached-put :
      (repo : Text) (versions : List Text) (cache : Map VersionsEntry) (now t : ℕ)
      → t ≤ now + versions_cache_ttl
      → cached_versions repo (put_versions repo versions cache now) t ≡ some versions
  unfolding cached_versions put_versions
  cached-put repo versions cache now t h = ground (
    arith,
    h,
    lookup-insert_self repo (record { versions = versions; expires = now + versions_cache_ttl })
        cache,
  )

  fetched-cached :
      (repo : Text) (versions : List Text) (cache cache' : Map VersionsEntry) (now t : ℕ)
      (r : Option (List Text) × B) (b' : B)
      → t ≤ now + versions_cache_ttl
      → fetched_versions fetch repo cache now r ≡ (some versions, cache', b')
      → cached_versions repo cache' t ≡ some versions
  unfolding fetched_versions
  fetched-cached repo versions cache cache' now t (none, b) b' h e = ground (arith, e)
  fetched-cached repo versions cache cache' now t (some tags, b) b' h e =
      ground (arith, e, cached-put repo (keep (λ x. not (same x [])) tags) cache now t h)

  -- Within five minutes after GitHub was asked, the same tags are given again, and it is not asked.
  pub fetch_github_versions-cached :
      (repo : Text) (versions : List Text) (cache cache' : Map VersionsEntry) (now later t u : ℕ)
      (b b' b₂ : B)
      → cached_versions repo cache now ≡ none
      → fetch_github_versions fetch repo cache now later b ≡ (some versions, cache', b')
      → t ≤ later + versions_cache_ttl
      → fetch_github_versions fetch repo cache' t u b₂ ≡ (some versions, cache', b₂)
  unfolding fetch_github_versions
  fetch_github_versions-cached repo versions cache cache' now later t u b b' b₂ m e h =
      let k =
        fetched-cached repo versions cache cache' later t (fetch repo b) b' h
          (ground (arith, m, e)) in
      ground (arith, k)
