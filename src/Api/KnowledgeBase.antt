-- ===== src/Api/KnowledgeBase.antt =====
-- api/v1alpha1/knowledgebase_types.go and common_types.go.
use kuberag.Prelude.{Text, ℕ, Bool, Option, List}

-- Nanoseconds since Go's zero time: `IsZero` is `== 0`.
abbrev pub Time : Type 0
Time = ℕ

pub record SecretKeyRef : Type 0 where
  pub name : Text
  pub key : Text

pub record GithubSource : Type 0 where
  pub repo : Text
  pub ref : Text
  pub include_globs : List Text
  pub token_secret_ref : Option SecretKeyRef

pub record S3Source : Type 0 where
  pub bucket : Text
  pub prefix : Text
  pub region : Text
  pub endpoint : Text
  pub include_globs : List Text
  pub access_key_secret_ref : Option SecretKeyRef
  pub secret_key_secret_ref : Option SecretKeyRef

pub record WebSource : Type 0 where
  pub urls : List Text
  pub max_depth : ℕ
  pub same_domain_only : Option Bool
  pub max_pages : ℕ
  pub allow_private_networks : Bool

pub data SourceType : Type 0 where
  source_github source_s3 source_web : SourceType

pub record Source : Type 0 where
  pub name : Text
  pub type : SourceType
  pub github : Option GithubSource
  pub s3 : Option S3Source
  pub web : Option WebSource

-- A Go string: a label of a Job may hold any.
abbrev pub ChunkingStrategy : Type 0
ChunkingStrategy = Text

pub record ChunkingSpec : Type 0 where
  pub strategy : ChunkingStrategy
  pub max_tokens : ℕ
  pub overlap : ℕ

pub record EmbeddingSpec : Type 0 where
  pub model : Text
  pub provider : Text
  pub base_url : Text
  pub dimension : ℕ
  pub query_prefix : Text
  pub document_prefix : Text
  pub api_key_secret_ref : Option SecretKeyRef

pub data VectorStoreType : Type 0 where
  qdrant pgvector milvus : VectorStoreType

pub data DistanceMetric : Type 0 where
  unset cosine dot euclid : DistanceMetric

pub record VectorStoreSpec : Type 0 where
  pub type : VectorStoreType
  pub endpoint : Text
  pub collection : Text
  pub distance : DistanceMetric
  pub credentials_secret_ref : Option SecretKeyRef

pub data IngestMode : Type 0 where
  unset full incremental : IngestMode

pub record ResourceRequirements : Type 0 where
  pub cpu : Text
  pub memory : Text

pub record IngestionSpec : Type 0 where
  pub mode : IngestMode
  pub batch_size : ℕ
  pub resources : Option ResourceRequirements
  pub service_account_name : Text
  pub ttl_seconds_after_finished : Option ℕ
  pub active_deadline_seconds : Option ℕ
  pub model_cache_size_limit : Text

pub record AutoTuneSpec : Type 0 where
  pub enabled : Option Bool
  pub max_attempts : ℕ

pub record RetrievalQualitySpec : Type 0 where
  pub enabled : Option Bool
  pub eval_schedule : Text
  pub dataset_ref : Text
  pub top_k : ℕ
  pub minimum_recall_percent : ℕ
  pub auto_tune : Option AutoTuneSpec

pub record KnowledgeBaseSpec : Type 0 where
  pub sources : List Source
  pub chunking : ChunkingSpec
  pub embedding : EmbeddingSpec
  pub vector_store : VectorStoreSpec
  -- `freshness.schedule`: FreshnessSpec has this field alone.
  pub schedule : Text
  pub ingestion : IngestionSpec
  pub retrieval_quality : Option RetrievalQualitySpec
  pub worker_image : Text
  pub suspend : Bool

pub data Phase : Type 0 where
  unset pending ingesting ready degraded failed suspended : Phase

-- SourceStatus and IngestSourceResult have the same fields, and the code converts between them.
pub record SourceStatus : Type 0 where
  pub name : Text
  pub revision : Text
  pub chunks : ℕ

pub record EvaluationStatus : Type 0 where
  pub recall_percent : ℕ
  pub p95_latency_millis : ℕ
  pub queries : ℕ
  pub time : Option Time

pub data ConditionType : Type 0 where
  ready_condition ingesting_condition evaluated_condition available_condition : ConditionType

pub data Reason : Type 0 where
  worker_service_account_unavailable resource_quota_exceeded suspended_reason ingestion_cancelled :
      Reason
  ingestion_stuck ingestion_failed ingestion_complete failed_reason complete_reason job_created :
      Reason
  ingesting_reason ingestion_started spec_config_too_large evaluating evaluation_started : Reason
  eval_failed no_dataset eval_no_dataset recall_met auto_tuning auto_tune_settling : Reason
  recall_below_target cleanup cleanup_failed : Reason
  knowledge_base_not_found result_read_failed backup_job_created backup_failed : Reason
  backup_complete backup_not_found backup_not_ready restore_job_created restore_failed : Reason
  restore_complete index_healthy index_degraded index_missing index_unknown : Reason
  secret_not_found secret_read_failed secret_key_not_found secret_key_empty : Reason
  minimum_replicas_available vector_index_unhealthy progressing_reason : Reason

-- metav1.Condition, less the message and the time of the transition.
pub record Condition : Type 0 where
  pub type : ConditionType
  pub status : Bool
  pub reason : Reason
  pub observed_generation : ℕ

pub record KnowledgeBaseStatus : Type 0 where
  pub phase : Phase
  pub observed_generation : ℕ
  pub observed_spec_hash : Text
  pub observed_secrets_hash : Text
  pub last_failed_spec_hash : Text
  pub last_failure_time : Option Time
  pub observed_embedding_model : Text
  pub observed_embedding : Option EmbeddingSpec
  pub effective_chunking : Option ChunkingSpec
  pub auto_tune_attempts : ℕ
  pub auto_tune_started_at : Option Time
  pub pending_retune : Bool
  pub best_recall_percent : ℕ
  pub best_chunking : Option ChunkingSpec
  pub eval_round : ℕ
  pub last_indexed_time : Option Time
  pub indexed_chunks : ℕ
  pub last_checkpoint : List SourceStatus
  pub sources : List SourceStatus
  pub evaluation : Option EvaluationStatus
  pub active_job : Text
  pub active_job_started_at : Option Time
  pub ingest_round : ℕ
  pub defer_cron_ingest : Bool
  pub conditions : List Condition

-- The object's metadata are the fields before `spec`; `has_finalizer` is membership of the
-- operator's own finalizer.
pub record KnowledgeBase : Type 0 where
  pub name : Text
  pub namespace : Text
  pub generation : ℕ
  pub deleting : Bool
  pub has_finalizer : Bool
  pub spec : KnowledgeBaseSpec
  pub status : KnowledgeBaseStatus
