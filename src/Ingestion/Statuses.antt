-- ===== src/Ingestion/Statuses.antt =====
-- internal/controller/ingestion_controller.go: what a finished ingestion leaves in the status.
use kuberag.Prelude.{
  if◌then◌else◌, has_prefix, Text, codes, true, false, ◌||◌, none, some, List, [],
}
use kuberag.Platform.{Platform}
use kuberag.Api.KnowledgeBase.{
  KnowledgeBase, Time, ChunkingSpec, IngestMode, full, incremental, SourceStatus, Phase,
  ready_condition, ingesting_condition, ingestion_failed, failed_reason, ingestion_complete,
  complete_reason,
}
use kuberag.Api.Jobs.{IngestResult}
use kuberag.Status.{set_condition, with_status}
use kuberag.Decisions.{IngestReason, reason_text}

-- The status of finalizeIngest where the Job failed.
unfoldable pub ingest_failed :
    Platform → Time → Text → List SourceStatus → KnowledgeBase → KnowledgeBase
ingest_failed p now hash checkpoint kb = set_condition p ingesting_condition false failed_reason (
    set_condition p ready_condition false ingestion_failed (
      with_status
        (λ st. record st {
          phase = Phase.failed;
          active_job = [];
          active_job_started_at = none;
          last_checkpoint = checkpoint;
          last_failed_spec_hash = hash;
          last_failure_time = some now;
        })
        kb))

-- The status of finalizeIngest where the Job completed.
unfoldable pub ingest_succeeded :
    Platform → Time → ChunkingSpec → Text → Text → IngestResult → KnowledgeBase → KnowledgeBase
ingest_succeeded p now eff hash secrets_hash result kb =
    set_condition p ingesting_condition false complete_reason (
      set_condition p ready_condition true ingestion_complete (
        with_status
          (λ st. record st {
            phase = Phase.ready;
            observed_spec_hash = hash;
            observed_secrets_hash = secrets_hash;
            last_failed_spec_hash = [];
            last_failure_time = none;
            last_checkpoint = [];
            observed_embedding_model = kb.spec.embedding.model;
            observed_embedding = some kb.spec.embedding;
            effective_chunking = some eff;
            pending_retune = false;
            indexed_chunks = result.total_chunks;
            sources = result.sources;
            last_indexed_time = some now;
            active_job = [];
            active_job_started_at = none;
            observed_generation = kb.generation;
          })
          kb))

-- The mode of a run for the reason's text; a mode that is not set means incremental.
ingest_mode : IngestMode → Text → IngestMode
ingest_mode mode reason =
    if has_prefix reason (codes "freshness") || has_prefix reason (codes "deferred")
    then elim mode [ IngestMode.unset ↦ incremental | full ↦ full | incremental ↦ incremental ]
    else full

unfoldable pub mode_for : KnowledgeBase → IngestReason → IngestMode
unfolding ingest_mode has_prefix
mode_for kb reason = ingest_mode kb.spec.ingestion.mode (reason_text reason)
