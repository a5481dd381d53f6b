-- ===== src/VectorIndex/Cache.antt =====
-- cachedProbe, whose cache all VectorIndexes share. It is a list with the newest entry of a key first.
use kuberag.Prelude.{
  ltb, if◌then◌else◌, text_eq, Text, codes, text_eq_refl, ℕ, ◌+◌, ◌*◌, ◌<◌, ◌≡◌, refl, Option, none,
  some, List, [], ◌∷◌, ◌++◌, arith,
}
use kuberag.Api.KnowledgeBase.{Time, VectorStoreType, qdrant, pgvector, milvus}
use kuberag.Cluster.{second}
use kuberag.VectorIndex.{ProbeResult, VectorIndex, collection_of}

pub record ProbeCacheEntry : Type 0 where
  pub key : Text
  pub result : ProbeResult
  pub checked_at : Time

abbrev pub ProbeCache : Type 0
ProbeCache = List ProbeCacheEntry

type_text : VectorStoreType → Text
type_text qdrant = codes "qdrant"
type_text pgvector = codes "pgvector"
type_text milvus = codes "milvus"

unfoldable pub cache_key : VectorIndex → Text
unfolding type_text
cache_key vi =
    type_text vi.spec.store.type ++ b'|' ∷ (vi.spec.store.endpoint ++ b'|' ∷ collection_of vi)

unfoldable pub find_entry : Text → ProbeCache → Option ProbeCacheEntry
find_entry key [] = none
find_entry key (e ∷ es) = let rest = find_entry key es in if text_eq e.key key then some e else rest

abbrev pub max_age : ℕ
max_age = 30 * second

-- The entry of the key, where it is young enough.
unfoldable pub fresh_entry : Text → Time → ProbeCache → Option ProbeResult
unfolding find_entry
fresh_entry key now cache = elim (find_entry key cache) [
  | none ↦ none
  | some e ↦ if ltb now (e.checked_at + max_age) then some e.result else none
]

-- The clock as the cache is looked up, and as the result is stored.
unfoldable pub cached_probe :
    Text → Time → Time → ProbeResult → ProbeCache → ProbeResult × ProbeCache
unfolding fresh_entry
cached_probe key now checked probed cache = elim (fresh_entry key now cache) [
  | some r ↦ (r, cache)
  | none ↦ (probed, record { key = key; result = probed; checked_at = checked } ∷ cache)
]

pub cached_probe-fresh :
    (key : Text) (now checked : Time) (probed r : ProbeResult) (cache : ProbeCache)
    → fresh_entry key now cache ≡ some r
    → cached_probe key now checked probed cache ≡ (r, cache)
unfolding cached_probe
cached_probe-fresh key now checked probed r cache fresh = rw (fresh, cached_probe) refl

pub cached_probe-missed :
    (key : Text) (now checked : Time) (probed : ProbeResult) (cache : ProbeCache)
    → fresh_entry key now cache ≡ none
    → (cached_probe key now checked probed cache).0 ≡ probed
unfolding cached_probe
cached_probe-missed key now checked probed cache missed = rw (missed, cached_probe) refl

-- A store is asked once in 30 seconds. After a probe that was stored, every pass for the same key
-- until 30 seconds later reports its result, whatever a new probe would say, and leaves the cache.
cached_probe-once :
    (key : Text) (now checked later stored : Time) (probed other : ProbeResult) (cache : ProbeCache)
    → fresh_entry key now cache ≡ none
    → later < checked + max_age
    → cached_probe key later stored other (cached_probe key now checked probed cache).1
      ≡ (probed, (cached_probe key now checked probed cache).1)
unfolding cached_probe fresh_entry find_entry
cached_probe-once key now checked later stored probed other cache missed young =
    ground (arith, text_eq_refl key)
