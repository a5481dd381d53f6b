-- ===== src/Jobs.antt =====
-- internal/controller/jobs.go and vectorindex_helpers.go: what a worker Job is made of. Scheduling
-- hints, which are copied from the spec, are not modelled.
pub mod Environment
pub mod Sources
pub mod Labelled
pub mod Snapshots
pub mod Tests
use kuberag.Prelude.{
  leb, ◌==◌, if◌then◌else◌, length, is_empty, text_eq, Text, codes, ℕ, ◌*◌, Bool, false, ◌||◌,
  Option, none, some, List, [], ◌∷◌, ◌++◌,
}
use kuberag.Platform.{Platform}
use kuberag.Pods.{plain, scratch_env, worker_pod}
use kuberag.Api.KnowledgeBase.{
  KnowledgeBase, EmbeddingSpec, ChunkingSpec, IngestMode, full, incremental, SourceStatus,
}
use kuberag.Api.Jobs.{Job, JobType, EnvVar, ingest, eval, cleanup}
use kuberag.Names.{
  hex_prefix, trunc_name, result_config_map_name, checkpoint_config_map_name, spec_config_map_name,
}
use kuberag.Labels.{sprintf_d, chunking_label}
use kuberag.Identity.{worker_service_account_name}
unfoldable pub use Environment.{
  embedding_dimension, worker_image, trace_env, secret_env, optional_env,
}
pub use Environment.{credential_env, or_default}

-- The cap of 950 KiB on a spec.
abbrev pub max_config_map_bytes : ℕ
max_config_map_bytes = 950 * 1024

unfoldable pub spec_config_map_size_ok : Text → Bool
spec_config_map_size_ok spec = leb (length spec) max_config_map_bytes

pub base_job :
    Platform
    → KnowledgeBase
    → Text
    → JobType
    → Text
    → Text
    → Text
    → List Text
    → List EnvVar
    → Option Job
unfolding worker_image trace_env
base_job p kb name type hash secrets_hash spec_map args extra =
    elim (worker_pod p kb spec_map args) [
      | none ↦ none
      | some pod ↦ some (record {
        name = name;
        namespace = kb.namespace;
        labels = record {
          knowledge_base = kb.name;
          job_type = type;
          spec_hash = hash;
          secrets_hash = secrets_hash;
          chunking = [];
        };
        backoff_limit = 2;
        ttl_seconds = or_default kb.spec.ingestion.ttl_seconds_after_finished 300;
        active_deadline_seconds = some (or_default kb.spec.ingestion.active_deadline_seconds 7200);
        service_account = worker_service_account_name p kb;
        pod = pod;
        image = worker_image kb;
        env =
            plain (codes "KB_NAME") kb.name
            ∷ plain (codes "KB_NAMESPACE") kb.namespace
            ∷ plain (codes "KB_SPEC_PATH") (codes "/etc/kuberag/spec.json")
            ∷ plain (codes "RESULT_CONFIGMAP") (result_config_map_name p name)
            ∷ (trace_env p.trace_env ++ (scratch_env ++ (extra ++ credential_env kb)));
        conditions = [];
      })
    ]

-- `kb.Spec.Embedding` with its dimension resolved.
pub resolved_embedding : EmbeddingSpec → EmbeddingSpec
resolved_embedding e =
    if e.dimension == 0 then record e { dimension = embedding_dimension e } else e

marshal_effective_spec : Platform → KnowledgeBase → ChunkingSpec → Option Text
unfolding resolved_embedding
marshal_effective_spec p kb eff =
    p.json_spec
      (record (kb.spec) { chunking = eff; embedding = resolved_embedding kb.spec.embedding })

unfoldable pub marshal_query_spec : Platform → KnowledgeBase → Option Text
unfolding resolved_embedding
marshal_query_spec p kb = p.json_query (resolved_embedding kb.spec.embedding) kb.spec.vector_store

pub marshal_store_spec : Platform → KnowledgeBase → Option Text
marshal_store_spec p kb = p.json_store kb.spec.vector_store

pub named : Text → List SourceStatus → Bool
named x [] = false
named x (y ∷ ys) = text_eq y.name x || named x ys

-- The checkpoint's sources whose names the synced ones lack.
pub unseen : List SourceStatus → List SourceStatus → List SourceStatus
unfolding named
unseen synced [] = []
unseen synced (c ∷ cs) =
    let rest = unseen synced cs in if named c.name synced then rest else c ∷ rest

pub prior_sources : KnowledgeBase → List SourceStatus
unfolding unseen
prior_sources kb = kb.status.sources ++ unseen kb.status.sources kb.status.last_checkpoint

unfoldable pub chunk_fingerprint : Platform → ChunkingSpec → Text
chunk_fingerprint p c =
    hex_prefix p 3 (c.strategy ++ b'|' ∷ (sprintf_d c.max_tokens ++ b'|' ∷ sprintf_d c.overlap))

mode_text : IngestMode → Text
mode_text IngestMode.unset = []
mode_text full = codes "full"
mode_text incremental = codes "incremental"

unfoldable pub ingest_job_name : Platform → KnowledgeBase → Text → ChunkingSpec → Text
ingest_job_name p kb hash eff = trunc_name p (
    kb.name
    ++ (codes "-ingest-r"
        ++ (sprintf_d kb.status.ingest_round
            ++ (codes "-t"
                ++ (sprintf_d kb.status.auto_tune_attempts
                    ++ (codes "-c" ++ (chunk_fingerprint p eff ++ b'-' ∷ hash)))))))

-- `job.Labels[labelChunking] = chunkingLabel(effChunking)`, and the spec beside the job.
label_chunking : ChunkingSpec → Option Text → Option Job → Option (Job × Text)
label_chunking eff (some spec) (some job) =
    some (record job { labels = record (job.labels) { chunking = chunking_label eff } }, spec)
label_chunking eff _ _ = none

-- `none` stands for the error of the marshalling or of a quantity, or for a panic.
unfoldable pub build_ingest_job :
    Platform → KnowledgeBase → Text → Text → IngestMode → ChunkingSpec → Option (Job × Text)
unfolding marshal_effective_spec mode_text prior_sources base_job label_chunking
build_ingest_job p kb hash secrets_hash mode eff =
    let name = ingest_job_name p kb hash eff in
    let env =
      plain (codes "INGEST_MODE") (mode_text mode)
      ∷ plain (codes "INGEST_ROUND") (sprintf_d kb.status.ingest_round)
      ∷ plain (codes "PRIOR_SOURCES_JSON") (p.json_sources (prior_sources kb))
      ∷ plain (codes "CHECKPOINT_CONFIGMAP") (checkpoint_config_map_name p name)
      ∷ (if is_empty kb.status.last_checkpoint
          then []
          else plain (codes "RESUME_FROM_CHECKPOINT") (codes "true") ∷ []) in
    label_chunking eff (marshal_effective_spec p kb eff) (
      base_job p kb name ingest hash secrets_hash (spec_config_map_name p name)
        (codes "ingest" ∷ []) env)

-- The data set's name and the number of results asked for.
unfoldable pub build_eval_job :
    Platform → KnowledgeBase → Text → Text → ℕ → ChunkingSpec → Text → ℕ → Option (Job × Text)
unfolding marshal_query_spec base_job label_chunking
build_eval_job p kb hash secrets_hash round eff dataset top_k =
    let name = trunc_name p (kb.name ++ (codes "-eval-r" ++ sprintf_d round)) in
    let env =
      plain (codes "EVAL_DATASET_CONFIGMAP") dataset
      ∷ plain (codes "EVAL_TOPK") (sprintf_d (if top_k == 0 then 8 else top_k))
      ∷ [] in
    label_chunking eff (marshal_query_spec p kb) (
      base_job p kb name eval hash secrets_hash (spec_config_map_name p name) (codes "eval" ∷ [])
        env)

unfoldable pub cleanup_job_name : Platform → KnowledgeBase → Text
cleanup_job_name p kb = trunc_name p (kb.name ++ codes "-cleanup")

unfoldable pub build_cleanup_job : Platform → KnowledgeBase → Text → Option (Job × Text)
unfolding marshal_store_spec base_job
build_cleanup_job p kb secrets_hash =
    let name = cleanup_job_name p kb in
    elim (marshal_store_spec p kb) [
      | none ↦ none
      | some spec ↦
          elim (base_job p kb name cleanup [] secrets_hash (spec_config_map_name p name)
            (codes "cleanup" ∷ []) []) [
              | none ↦ none
              | some job ↦ some (record job { backoff_limit = 1 }, spec)
            ]
    ]
