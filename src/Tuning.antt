-- ===== src/Tuning.antt =====
-- The auto-tune loop, which no function of the code runs by itself: finalizeEval, then the re-index that it forces, then the next evaluation, as the
-- passes of the reconciler run them. Every re-index is taken to succeed, and finishes with the status of finalizeIngest; its
-- chunking is the effective one, which the Job's label carries.
pub mod Ends
use kuberag.Prelude.{if◌then◌else◌, Bool, true, false, Option, none, some, List, [], ◌∷◌}
use kuberag.Platform.{Platform}
use kuberag.Api.KnowledgeBase.{KnowledgeBase, Time}
use kuberag.Api.Jobs.{EvalResult, IngestResult}
use kuberag.Chunking.{effective_chunking}
use kuberag.Decisions.{corpus_hash}
use kuberag.Evaluation.{Verdict, tuned, settled, judge}
use kuberag.Ingestion.{ingest_succeeded}

-- One evaluation, and the ingestion that follows it.
pub record Round : Type 0 where
  pub evaluated_at : Time
  pub indexed_at : Time
  pub evaluation : EvalResult
  pub ingestion : IngestResult

unfoldable pub reindex : Platform → Round → KnowledgeBase → KnowledgeBase
reindex p r kb =
    ingest_succeeded p r.indexed_at (effective_chunking kb) (corpus_hash p kb)
      kb.status.observed_secrets_hash r.ingestion kb

-- Whether a verdict forces a re-index (applyAutoTune and settleOnBest set PendingRetune).
abbrev pub retunes : Verdict → Bool
retunes tuned = true
retunes settled = true
retunes _ = false

-- The loop over the rounds that come; the verdict is `none` where it has not ended with them.
pub tuning : Platform → KnowledgeBase → List Round → KnowledgeBase × Option Verdict
tuning p kb [] = (kb, none)
tuning p kb (r ∷ rs) =
    let (kb', verdict) = judge p r.evaluated_at r.evaluation kb in
    let rest = tuning p (reindex p r kb') rs in
    if retunes verdict then rest else (kb', some verdict)
