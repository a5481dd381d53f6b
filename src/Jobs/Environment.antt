-- ===== src/Jobs/Environment.antt =====
-- internal/controller/jobs.go: the environment of a worker's container.
use kuberag.Prelude.{
  ltb, if◌then◌else◌, is_empty, text_eq, Text, codes, ℕ, ◌||◌, Option, none, some, List, [], ◌∷◌,
  ◌++◌,
}
use kuberag.Pods.{plain}
use kuberag.Api.KnowledgeBase.{KnowledgeBase, Source, SecretKeyRef, EmbeddingSpec}
use kuberag.Api.Jobs.{EnvVar, from_secret}

unfoldable pub embedding_dimension : EmbeddingSpec → ℕ
embedding_dimension e =
    let model = λ (name : Text). text_eq e.model name in
    if ltb 0 e.dimension
    then e.dimension
    else if model (codes "bge-small")
    then 384
    else if model (codes "bge-large")
    then 1024
    else if model (codes "text-embedding-004") || model (codes "text-embedding-005")
    then 768
    else if model (codes "text-embedding-3-small")
    then 1536
    else if model (codes "text-embedding-3-large") || model (codes "gemini-embedding-001")
    then 3072
    else if is_empty e.provider || text_eq e.provider (codes "local")
    then 384
    else 0

abbrev default_worker_image : Text
default_worker_image = codes "ghcr.io/furkandogmus/kuberag-worker:latest"

unfoldable pub worker_image : KnowledgeBase → Text
worker_image kb =
    if is_empty kb.spec.worker_image then default_worker_image else kb.spec.worker_image

unfoldable pub secret_env : Text → SecretKeyRef → EnvVar
secret_env name ref = record { name = name; value = from_secret ref }

-- One variable for a reference that is there.
unfoldable pub optional_env : Text → Option SecretKeyRef → List EnvVar
unfolding secret_env
optional_env name none = []
optional_env name (some ref) = secret_env name ref ∷ []

-- The `switch` on a source: a GitHub source without a token falls through to the S3 block.
source_env : Source → List EnvVar
unfolding optional_env
source_env src =
    let s3_env : List EnvVar = elim src.s3 [
      | none ↦ []
      | some s3 ↦
          optional_env (codes "S3_ACCESS_KEY_" ++ src.name) s3.access_key_secret_ref
          ++ optional_env (codes "S3_SECRET_KEY_" ++ src.name) s3.secret_key_secret_ref
    ] in
    elim src.github [
      | none ↦ s3_env
      | some github ↦ elim github.token_secret_ref [
        | none ↦ s3_env
        | some ref ↦ secret_env (codes "GITHUB_TOKEN_" ++ src.name) ref ∷ []
      ]
    ]

sources_env : List Source → List EnvVar
sources_env [] = []
sources_env (x ∷ xs) = source_env x ++ sources_env xs

pub credential_env : KnowledgeBase → List EnvVar
unfolding source_env sources_env optional_env
credential_env kb =
    sources_env kb.spec.sources
    ++ (optional_env (codes "EMBEDDING_API_KEY") kb.spec.embedding.api_key_secret_ref
        ++ optional_env (codes "VECTORSTORE_CREDENTIAL")
            kb.spec.vector_store.credentials_secret_ref)

abbrev pub or_default : Option ℕ → ℕ → ℕ
or_default none d = d
or_default (some n) d = n

unfoldable pub trace_env : List (Text × Text) → List EnvVar
trace_env [] = []
trace_env ((k, v) ∷ rest) = plain k v ∷ trace_env rest
