-- ===== src/Reconcile/Statuses.antt =====
-- internal/controller/knowledgebase_controller.go: what Reconcile writes into a status by itself.
use kuberag.Prelude.{if◌then◌else◌, Text, false, none, some, List, []}
use kuberag.Platform.{Platform}
use kuberag.Api.KnowledgeBase.{
  KnowledgeBase, Time, Phase, ready_condition, ingestion_stuck, SourceStatus,
}
use kuberag.Status.{set_condition, with_status}
use kuberag.AutoTune.{record_auto_tune_duration}
use kuberag.Decisions.{user_edited_spec}

-- `if userEditedSpec(&kb, chash) { … }`
unfoldable pub drop_override : Text → KnowledgeBase → KnowledgeBase
drop_override chash kb =
    if user_edited_spec kb chash
    then with_status
        (λ st. record st {
          effective_chunking = none;
          auto_tune_attempts = 0;
          best_chunking = none;
          best_recall_percent = 0;
          pending_retune = false;
        })
        (record_auto_tune_duration kb)
    else kb

-- The status of a Job that is cleared since it ran past its deadline.
unfoldable pub stuck : Platform → Time → Text → List SourceStatus → KnowledgeBase → KnowledgeBase
stuck p now chash checkpoint kb = set_condition p ready_condition false ingestion_stuck (
    with_status
      (λ st. record st {
        last_checkpoint = checkpoint;
        active_job = [];
        active_job_started_at = none;
        last_failed_spec_hash = chash;
        last_failure_time = some now;
        phase = Phase.failed;
      })
      kb)
