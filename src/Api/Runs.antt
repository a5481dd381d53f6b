-- ===== src/Api/Runs.antt =====
-- api/v1alpha1/ingestionrun_types.go.
use kuberag.Prelude.{Text, ℕ, Option, List}
use kuberag.Api.KnowledgeBase.{Time, ChunkingSpec, IngestMode, SourceStatus}

pub data RunPhase : Type 0 where
  unset running succeeded failed : RunPhase

pub record IngestionRunStatus : Type 0 where
  pub phase : RunPhase
  pub start_time : Option Time
  pub completion_time : Option Time
  pub total_chunks : ℕ
  pub sources : List SourceStatus
  pub error : Text

pub record IngestionRun : Type 0 where
  pub name : Text
  pub knowledge_base : Text
  pub creation_timestamp : Time
  pub mode : IngestMode
  pub spec_hash : Text
  pub effective_chunking : ChunkingSpec
  pub status : IngestionRunStatus
