-- ===== src/VectorIndex.antt =====
-- internal/controller/vectorindex_controller.go and api/v1alpha1/vectorindex_types.go: the probe of a
-- collection, its cache, and the status of a VectorIndex. HTTP, SQL and the Secrets that a probe reads
-- are the parameter `Stores`, as they are at the time of the probe. Messages are not modelled. The
-- CRD allows the three types of store only, so that the default case of probeStore is left out. The
-- URL of Milvus's describe request is taken to be one that http.NewRequestWithContext accepts.
pub mod Cache
pub mod Health
pub mod Tests
use kuberag.Prelude.{
  ltb, leb, ◌==◌, if◌then◌else◌, is_empty, Text, codes, ℕ, Bool, false, not, ◌&&◌, Option, none,
  some, List, ◌++◌,
}
use kuberag.Api.KnowledgeBase.{
  Time, SecretKeyRef, VectorStoreSpec, qdrant, pgvector, milvus, Condition,
}

pub data VectorIndexHealth : Type 0 where
  healthy degraded missing unknown : VectorIndexHealth

-- The number of points, `none` for the -1 of a store that does not tell.
pub record ProbeResult : Type 0 where
  pub health : VectorIndexHealth
  pub points : Option ℕ
  pub dimension : ℕ

pub record VectorIndexSpec : Type 0 where
  pub knowledge_base_ref : Text
  pub store : VectorStoreSpec
  pub dimension : ℕ
  pub probe_interval_seconds : ℕ

-- The health is `none` before the first probe.
pub record VectorIndexStatus : Type 0 where
  pub observed_generation : ℕ
  pub health : Option VectorIndexHealth
  pub point_count : Option ℕ
  pub dimension : ℕ
  pub last_probe_time : Option Time
  pub conditions : List Condition

pub record VectorIndex : Type 0 where
  pub generation : ℕ
  pub spec : VectorIndexSpec
  pub status : VectorIndexStatus

-- The fields of Milvus's answer that the code reads.
pub record MilvusCollection : Type 0 where
  pub code_is_zero : Bool
  pub collection_name : Text
  pub num_entities : ℕ

pub record Stores : Type 0 where
  -- A Secret by its name, as far as it can be read: its values by key.
  pub secret : Text → Option (Text → Option Text)
  -- Whether http.NewRequestWithContext accepts a URL.
  pub valid_url : Text → Bool
  -- The status code and body that a GET with that header value gets; `none` where it fails.
  pub http_get : Text → Option Text → Option (ℕ × Text)
  pub has_host : Text → Bool
  -- The points and the vector size in Qdrant's answer.
  pub qdrant_body : Text → Option (ℕ × ℕ)
  pub milvus_body : Text → Option MilvusCollection
  pub sql_open : Text → Bool
  pub sql_ping : Text → Bool
  pub table_exists : Text → Text → Option Bool
  pub count_rows : Text → Text → Option ℕ

unfoldable pub collection_of : VectorIndex → Text
collection_of vi =
    let c = vi.spec.store.collection in if is_empty c then vi.spec.knowledge_base_ref else c

-- A result of which only the health is set.
abbrev pub bare : VectorIndexHealth → ProbeResult
bare health = record { health = health; points = some 0; dimension = 0 }

-- The header value from the Secret that the store names, `refused` where the probe ends.
pub data Credential : Type 0 where
  sends : Option Text → Credential
  refused : Credential

-- Qdrant's probe ends where the Secret or its key is missing.
pub qdrant_credential : Stores → Option SecretKeyRef → Credential
qdrant_credential s none = sends none
qdrant_credential s (some ref) = elim (s.secret ref.name) [
  | none ↦ refused
  | some data_of ↦ elim (data_of ref.key) [ none ↦ refused | some key ↦ sends (some key) ]
]

-- Milvus's probe goes on without the key, but not without the Secret.
milvus_credential : Stores → Option SecretKeyRef → Credential
milvus_credential s none = sends none
milvus_credential s (some ref) = elim (s.secret ref.name) [
  | none ↦ refused
  | some data_of ↦ elim (data_of ref.key) [
    | none ↦ sends none
    | some token ↦ sends (some (codes "Bearer " ++ token))
  ]
]

-- `vi.Spec.Dimension > 0 && dim > 0 && dim != vi.Spec.Dimension`
mismatch : ℕ → ℕ → Bool
mismatch expected dim = ltb 0 expected && (ltb 0 dim && not (dim == expected))

pub judge_qdrant : Stores → ℕ → Option (ℕ × Text) → ProbeResult
unfolding mismatch
judge_qdrant s expected none = bare unknown
judge_qdrant s expected (some (code, text)) =
    if code == 404
    then bare missing
    else if not (code == 200)
    then bare degraded
    else elim (s.qdrant_body text) [
      | none ↦ bare unknown
      | some (points, dim) ↦ record {
        health = if mismatch expected dim then degraded else healthy;
        points = some points;
        dimension = dim;
      }
    ]

pub ask_qdrant : Stores → Text → ℕ → Credential → ProbeResult
ask_qdrant s url expected refused = bare unknown
ask_qdrant s url expected (sends key) = judge_qdrant s expected (s.http_get url key)

pub probe_qdrant : Stores → VectorIndex → ProbeResult
unfolding ask_qdrant qdrant_credential
probe_qdrant s vi =
    let url = vi.spec.store.endpoint ++ (codes "/collections/" ++ collection_of vi) in
    if not (s.valid_url url)
    then bare unknown
    else ask_qdrant s url vi.spec.dimension
        (qdrant_credential s vi.spec.store.credentials_secret_ref)

-- `err != nil || !exists`
exists_table : Option Bool → Bool
exists_table none = false
exists_table (some b) = b

pub probe_pgvector : Stores → VectorIndex → ProbeResult
unfolding exists_table
probe_pgvector s vi =
    let dsn = vi.spec.store.endpoint in
    let table = collection_of vi in
    if not (s.sql_open dsn)
    then bare unknown
    else if not (s.sql_ping dsn)
    then bare degraded
    else if not (exists_table (s.table_exists dsn table))
    then bare missing
    else elim (s.count_rows dsn table) [
      | none ↦ bare degraded
      | some n ↦ record { health = healthy; points = some n; dimension = vi.spec.dimension }
    ]

-- The answer to the describe request, where it tells the number of entities.
described : Stores → Option (ℕ × Text) → Option ℕ
described s none = none
described s (some (code, text)) = if not (code == 200) then none else elim (s.milvus_body text) [
  | none ↦ none
  | some c ↦
      if c.code_is_zero && not (is_empty c.collection_name) then some c.num_entities else none
]

-- What follows the health request.
describe_milvus : Stores → Text → VectorIndex → Option Text → Option (ℕ × Text) → ProbeResult
unfolding described
describe_milvus s endpoint vi token none = bare degraded
describe_milvus s endpoint vi token (some (code, text)) =
    let url =
      endpoint ++ (codes "/v2/vectordb/collections/describe?collectionName=" ++ collection_of vi) in
    if leb 500 code then bare degraded else record {
      health = healthy;
      points = described s (s.http_get url token);
      dimension = vi.spec.dimension;
    }

ask_milvus : Stores → Text → VectorIndex → Credential → ProbeResult
unfolding describe_milvus
ask_milvus s endpoint vi refused = bare unknown
ask_milvus s endpoint vi (sends token) =
    describe_milvus s endpoint vi token (s.http_get (endpoint ++ codes "/health") token)

pub probe_milvus : Stores → VectorIndex → ProbeResult
unfolding ask_milvus milvus_credential
probe_milvus s vi =
    let given = vi.spec.store.endpoint in
    let endpoint = if s.has_host given then given else codes "http://" ++ given in
    if not (s.valid_url (endpoint ++ codes "/health"))
    then bare unknown
    else ask_milvus s endpoint vi (milvus_credential s vi.spec.store.credentials_secret_ref)

pub probe_store : Stores → VectorIndex → ProbeResult
probe_store s vi = elim vi.spec.store.type [
  | qdrant ↦ probe_qdrant s vi
  | pgvector ↦ probe_pgvector s vi
  | milvus ↦ probe_milvus s vi
]
