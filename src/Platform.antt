-- ===== src/Platform.antt =====
-- What the operator calls and does not implement: SHA-256, encoding/json, robfig/cron, the lists of
-- conditions and the parser of quantities of Kubernetes. A definition that uses one of them takes this record.
use kuberag.Prelude.{length, Text, ℕ, ◌≡◌, Bool, Option, List}
use kuberag.Api.KnowledgeBase.{
  Time, Source, ChunkingSpec, EmbeddingSpec, VectorStoreSpec, KnowledgeBaseSpec, SourceStatus,
  Condition, ConditionType,
}
use kuberag.Api.Snapshots.{BackupResult}
use kuberag.Api.Jobs.{IngestResult, EvalResult}

pub record Platform : Type 0 where
  -- The hexadecimal digest, 64 bytes long.
  pub sha256_hex : Text → Text
  -- `cronParser.Parse`, and on success `sched.Next`, which answers the zero time (0) where the
  -- schedule never fires.
  pub cron_parse : Text → Option (Time → Time)
  pub json_corpus : List Source → ChunkingSpec → EmbeddingSpec → VectorStoreSpec → Text
  pub json_spec : KnowledgeBaseSpec → Option Text
  pub json_query : EmbeddingSpec → VectorStoreSpec → Option Text
  pub json_store : VectorStoreSpec → Option Text
  pub json_sources : List SourceStatus → Text
  pub ingest_result : Text → Option IngestResult
  pub eval_result : Text → Option EvalResult
  pub checkpoint : Text → Option (List SourceStatus)
  pub backup_result : Text → Option BackupResult
  pub restore_result : Text → Option ℕ
  pub quantity_ok : Text → Bool
  -- meta.SetStatusCondition and meta.FindStatusCondition.
  pub set_status_condition : List Condition → Condition → List Condition
  pub find_status_condition : List Condition → ConditionType → Option Condition
  -- The propagated trace context, as environment variables.
  pub trace_env : List (Text × Text)

-- Documented: a SHA-256 digest has 32 bytes, two hexadecimal digits each.
abbrev pub HexLength : Platform → Type 0
HexLength p = (t : Text) → length (p.sha256_hex t) ≡ 64
