-- ===== src/Fixtures/Objects.antt =====
-- A concrete KnowledgeBase.
use kuberag.Prelude.{Text, codes, ℕ, zero, suc, ◌*◌, true, false, none, some, [], ◌∷◌}
use kuberag.Api.KnowledgeBase.{
  KnowledgeBase, Source, source_github, SecretKeyRef, ChunkingSpec, EmbeddingSpec, VectorStoreSpec,
  qdrant, cosine, IngestMode, RetrievalQualitySpec, AutoTuneSpec, KnowledgeBaseSpec,
  KnowledgeBaseStatus, Phase,
}
use kuberag.Cluster.{second}

abbrev pub repeat : ℕ → ℕ → Text
repeat zero c = []
repeat (suc n) c = c ∷ repeat n c

abbrev pub chunking : ChunkingSpec
chunking = record { strategy = codes "recursive"; max_tokens = 800; overlap = 80 }

abbrev pub github_token : SecretKeyRef
github_token = record { name = codes "github"; key = codes "token" }

abbrev source : Source
source = record {
  name = codes "docs";
  type = source_github;
  github = some (record {
    repo = codes "acme/docs";
    ref = codes "main";
    include_globs = [];
    token_secret_ref = some github_token;
  });
  s3 = none;
  web = none;
}

abbrev auto_tune : AutoTuneSpec
auto_tune = record { enabled = some true; max_attempts = 2 }

abbrev pub quality : RetrievalQualitySpec
quality = record {
  enabled = some true;
  eval_schedule = [];
  dataset_ref = codes "golden";
  top_k = 5;
  minimum_recall_percent = 90;
  auto_tune = some auto_tune;
}

abbrev embedding : EmbeddingSpec
embedding = record {
  model = codes "bge-small";
  provider = codes "local";
  base_url = [];
  dimension = 0;
  query_prefix = [];
  document_prefix = [];
  api_key_secret_ref = none;
}

abbrev pub vector_store : VectorStoreSpec
vector_store = record {
  type = qdrant;
  endpoint = codes "http://qdrant:6333";
  collection = [];
  distance = cosine;
  credentials_secret_ref = none;
}

abbrev spec : KnowledgeBaseSpec
spec = record {
  sources = source ∷ [];
  chunking = chunking;
  embedding = embedding;
  vector_store = vector_store;
  schedule = [];
  ingestion = record {
    mode = IngestMode.incremental;
    batch_size = 64;
    resources = none;
    service_account_name = [];
    ttl_seconds_after_finished = none;
    active_deadline_seconds = none;
    model_cache_size_limit = [];
  };
  retrieval_quality = some quality;
  worker_image = [];
  suspend = false;
}

abbrev status : KnowledgeBaseStatus
status = record {
  phase = Phase.ready;
  observed_generation = 1;
  observed_spec_hash = codes "aaaa";
  observed_secrets_hash = codes "bbbb";
  last_failed_spec_hash = [];
  last_failure_time = none;
  observed_embedding_model = codes "bge-small";
  observed_embedding = none;
  effective_chunking = none;
  auto_tune_attempts = 0;
  auto_tune_started_at = none;
  pending_retune = false;
  best_recall_percent = 0;
  best_chunking = none;
  eval_round = 1;
  last_indexed_time = some (90 * second);
  indexed_chunks = 12;
  last_checkpoint = [];
  sources = [];
  evaluation = none;
  active_job = [];
  active_job_started_at = none;
  ingest_round = 1;
  defer_cron_ingest = false;
  conditions = [];
}

abbrev pub kb : KnowledgeBase
kb = record {
  name = codes "docs";
  namespace = codes "rag";
  generation = 1;
  deleting = false;
  has_finalizer = true;
  spec = spec;
  status = status;
}
