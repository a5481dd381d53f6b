-- ===== src/Retriever/Environment.antt =====
-- The environment that desiredDeployment gives to the server.
use kuberag.Prelude.{
  if◌then◌else◌, is_empty, text_eq, Text, codes, ℕ, Bool, true, false, not, Option, none, some,
  List, [], ◌∷◌, ◌++◌,
}
use kuberag.Api.KnowledgeBase.{
  KnowledgeBase, SecretKeyRef, EmbeddingSpec, VectorStoreType, qdrant, pgvector, milvus,
  DistanceMetric, cosine, dot, euclid,
}
use kuberag.Api.Jobs.{EnvVar}
use kuberag.Api.Retriever.{Retriever, RerankSpec, RateLimitSpec, GenerationSpec}
use kuberag.Labels.{sprintf_d}
use kuberag.Jobs.{secret_env, optional_env}
use kuberag.Pods.{default_int, plain, scratch_env}
use kuberag.Retriever.{value_or}

type_text : VectorStoreType → Text
type_text qdrant = codes "qdrant"
type_text pgvector = codes "pgvector"
type_text milvus = codes "milvus"

distance_text : DistanceMetric → Text
distance_text DistanceMetric.unset = []
distance_text cosine = codes "cosine"
distance_text dot = codes "dot"
distance_text euclid = codes "euclid"

-- `%t` of fmt.
unfoldable pub bool_text : Bool → Text
bool_text true = codes "true"
bool_text false = codes "false"

-- The given text, or a default in place of "".
abbrev pub text_or : Text → Text → Text
text_or t def = if is_empty t then def else t

-- The configuration of the embeddings that are in the store, as far as one was recorded.
embedding_in_store : Text → EmbeddingSpec → Option EmbeddingSpec → EmbeddingSpec
embedding_in_store model emb (some observed) = observed
embedding_in_store model emb none = if is_empty model then emb else record emb { model = model }

unfoldable pub query_embedding : KnowledgeBase → EmbeddingSpec
unfolding embedding_in_store
query_embedding kb =
    embedding_in_store kb.status.observed_embedding_model kb.spec.embedding
      kb.status.observed_embedding

-- Whether reranking is on, the model and the pool of candidates.
unfoldable pub rerank_env : Option RerankSpec → List EnvVar
rerank_env rerank =
    let (on, model, candidates) : Bool × Text × ℕ = elim rerank [
      | none ↦ (false, [], 0)
      | some r ↦ (value_or r.enabled false, r.model, r.candidate_pool_size)
    ] in
    plain (codes "RERANK_ENABLED") (bool_text on)
    ∷ plain (codes "RERANK_MODEL") model
    ∷ plain (codes "RERANK_CANDIDATES") (sprintf_d candidates)
    ∷ []

unfoldable pub base_env : Retriever → KnowledgeBase → List EnvVar
unfolding rerank_env type_text distance_text
base_env rt kb =
    let emb = query_embedding kb in
    plain (codes "VECTORSTORE_TYPE") (type_text kb.spec.vector_store.type)
    ∷ plain (codes "VECTORSTORE_ENDPOINT") kb.spec.vector_store.endpoint
    ∷ plain (codes "VECTORSTORE_COLLECTION") (text_or kb.spec.vector_store.collection kb.name)
    ∷ plain (codes "DISTANCE") (distance_text kb.spec.vector_store.distance)
    ∷ plain (codes "EMBEDDING_MODEL") emb.model
    ∷ plain (codes "EMBEDDING_PROVIDER") emb.provider
    ∷ plain (codes "EMBEDDING_BASE_URL") emb.base_url
    ∷ plain (codes "EMBEDDING_DIMENSION") (sprintf_d emb.dimension)
    ∷ plain (codes "EMBEDDING_QUERY_PREFIX") emb.query_prefix
    ∷ plain (codes "EMBEDDING_DOC_PREFIX") emb.document_prefix
    ∷ plain (codes "TOPK") (sprintf_d (default_int rt.spec.top_k 8))
    ∷ plain (codes "SCORE_THRESHOLD") (sprintf_d rt.spec.score_threshold_percent)
    ∷ (rerank_env rt.spec.rerank
        ++ plain (codes "HYBRID_DEFAULT") (bool_text rt.spec.hybrid)
          ∷ plain (codes "HYBRID_DENSE_PERCENT")
              (sprintf_d (value_or rt.spec.hybrid_dense_percent 50))
          ∷ plain (codes "MAX_CONCURRENT_REQUESTS")
              (sprintf_d (default_int rt.spec.max_concurrent_requests 32))
          ∷ plain (codes "MAX_REQUEST_BODY_BYTES")
              (sprintf_d (default_int rt.spec.max_request_body_bytes 1048576))
          ∷ [])

-- A rate limit that is enabled, as it is where nothing is said.
unfoldable pub rate_limit_env : Option RateLimitSpec → List EnvVar
rate_limit_env none = []
rate_limit_env (some rate) =
    let backend = text_or rate.backend (codes "local") in
    if not (value_or rate.enabled true)
    then []
    else plain (codes "RATE_LIMIT_ENABLED") (codes "true")
      ∷ plain (codes "RATE_LIMIT_REQUESTS_PER_MINUTE")
          (sprintf_d (default_int rate.requests_per_minute 60))
      ∷ plain (codes "RATE_LIMIT_BURST") (sprintf_d (default_int rate.burst 20))
      ∷ plain (codes "RATE_LIMIT_BACKEND") backend
      ∷ plain (codes "RATE_LIMIT_REDIS_KEY_PREFIX")
          (text_or rate.redis_key_prefix (codes "kuberag:ratelimit"))
      ∷ plain (codes "RATE_LIMIT_CLIENT_ID_HEADER") rate.client_identity_header
      ∷ (if text_eq backend (codes "redis")
          then optional_env (codes "RATE_LIMIT_REDIS_URL") rate.redis_url_secret_ref
          else [])

unfoldable pub auth_env : Option SecretKeyRef → List EnvVar
auth_env none = []
auth_env (some ref) =
    plain (codes "RETRIEVER_AUTH_ENABLED") (codes "true")
    ∷ secret_env (codes "RETRIEVER_API_KEY") ref
    ∷ []

unfoldable pub generation_env : Option GenerationSpec → List EnvVar
generation_env none = []
generation_env (some g) =
    if not (value_or g.enabled true)
    then []
    else plain (codes "GEN_ENABLED") (codes "true")
      ∷ plain (codes "GEN_PROVIDER") g.provider
      ∷ plain (codes "GEN_MODEL") g.model
      ∷ plain (codes "GEN_BASE_URL") g.base_url
      ∷ plain (codes "GEN_MAX_TOKENS") (sprintf_d (default_int g.max_tokens 512))
      ∷ plain (codes "GEN_SYSTEM_PROMPT") g.system_prompt
      ∷ optional_env (codes "GEN_API_KEY") g.api_key_secret_ref

unfoldable pub retriever_env : Retriever → KnowledgeBase → List EnvVar
retriever_env rt kb =
    base_env rt kb
    ++ (rate_limit_env rt.spec.rate_limit
        ++ (optional_env (codes "VECTORSTORE_CREDENTIAL")
              kb.spec.vector_store.credentials_secret_ref
            ++ (optional_env (codes "EMBEDDING_API_KEY") (query_embedding kb).api_key_secret_ref
                ++ (auth_env rt.spec.api_key_secret_ref
                    ++ (generation_env rt.spec.generation
                        ++ (scratch_env
                            ++ plain (codes "DISABLE_PLAYGROUND_INGEST") (codes "true")
                              ∷ plain (codes "METRICS_ENABLED") (codes "true")
                              ∷ plain (codes "METRICS_PORT") (codes "9090")
                              ∷ []))))))
