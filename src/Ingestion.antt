-- ===== src/Ingestion.antt =====
-- internal/controller/ingestion_controller.go: reconcileActiveJob, finalizeIngest and startIngest, and
-- readCheckpointResult of jobs.go. Messages, metrics and logs are not modelled.
pub mod Statuses
pub mod Runs
pub mod Persistence
pub mod Outcomes
pub mod Starts
pub mod Keeps
pub mod Success
pub mod Conclusion
pub mod Refused
use kuberag.Prelude.{
  if◌then◌else◌, is_empty, Text, codes, ◌+◌, ◌*◌, Bool, true, false, not, ◌&&◌, Option, none, some,
  List, [],
}
use kuberag.Platform.{Platform}
use kuberag.Api.KnowledgeBase.{
  KnowledgeBase, ChunkingSpec, IngestMode, SourceStatus, Phase, ready_condition,
  ingesting_condition, ingestion_failed, ingestion_complete, job_created, ingesting_reason,
  ingestion_started,
}
use kuberag.Api.Jobs.{Job, IngestResult, ingest, eval}
use kuberag.Api.Runs.{RunPhase}
use kuberag.Names.{result_config_map_name, checkpoint_config_map_name, spec_config_map_name}
use kuberag.Labels.{job_effective_chunking, job_spec_hash, job_secrets_hash, is_ingest}
use kuberag.Schedule.{cron_due}
use kuberag.Cluster.{
  ◌>>=◌, ◌>>◌, Server, create_spec_config_map, create_job, delete_job, delete_config_map,
  set_controller_reference, event, other, M, pure, get, modify, call, attempt, fetch_key, fetch_job,
  time_now, on_error, Outcome, done, requeue, requeue_after, fails, second, minute, found, refused,
  is_quota_exceeded, is_not_found, ignore_already_exists,
}
use kuberag.Status.{set_condition, with_status, status_update, update_and_return, quota_or_fail}
use kuberag.Identity.{prepare_worker_job, clear_worker_config_map_access}
use kuberag.Jobs.{build_ingest_job, spec_config_map_size_ok}
use kuberag.Decisions.{is_failed, is_complete, IngestReason, time_or_zero}
use kuberag.Evaluation.{finalize_eval, refuse_large_spec}
use Runs.{RunError, of_creation, of_later_call, finalize_ingestion_run, record_run}
unfoldable pub use Statuses.{ingest_failed, ingest_succeeded, mode_for}

module _ (p : Platform) (s : Server) where
  -- An unreadable, empty or missing checkpoint is none.
  unfoldable pub read_checkpoint_result : Text → M KnowledgeBase (List SourceStatus)
  read_checkpoint_result job = do
    raw ← fetch_key s (checkpoint_config_map_name p job) (codes "checkpoint.json")
    pure (elim raw [
      | refused e ↦ []
      | found value ↦ elim value [
        | none ↦ []
        | some text ↦
            if is_empty text then [] else elim (p.checkpoint text) [ none ↦ [] | some cs ↦ cs ]
      ]
    ])

  fetch_ingest_result : Text → M KnowledgeBase (Option IngestResult)
  fetch_ingest_result job = do
    raw ← fetch_key s (result_config_map_name p job) (codes "result.json")
    pure (elim raw [
      | refused e ↦ none
      | found value ↦ elim value [ none ↦ none | some text ↦ p.ingest_result text ]
    ])

  -- deleteResult, deleteSpecConfigMap, deleteCheckpointConfigMap and deleteJob.
  pub delete_ingest_objects : Text → M KnowledgeBase (Unit {0})
  delete_ingest_objects job = do
    attempt s (delete_config_map (result_config_map_name p job))
    attempt s (delete_config_map (spec_config_map_name p job))
    attempt s (delete_config_map (checkpoint_config_map_name p job))
    attempt s (delete_job job)

  fail_ingest : Job → Text → M KnowledgeBase Outcome
  fail_ingest job hash = do
    checkpoint ← read_checkpoint_result job.name
    clear_worker_config_map_access s p
    now ← time_now s
    modify (ingest_failed p now hash checkpoint)
    attempt s (event true ingestion_failed)
    err ← status_update s
    on_error err fails do
      finalize_ingestion_run s job.name RunPhase.failed 0 [] (codes "ingestion job failed")
      delete_ingest_objects job.name
      pure (requeue_after minute)

  conclude_ingest : Job → ChunkingSpec → Text → Text → IngestResult → M KnowledgeBase Outcome
  conclude_ingest job eff hash secrets_hash result = do
    clear_worker_config_map_access s p
    now ← time_now s
    modify (ingest_succeeded p now eff hash secrets_hash result)
    attempt s (event false ingestion_complete)
    err ← status_update s
    on_error err fails do
      finalize_ingestion_run s job.name RunPhase.succeeded result.total_chunks result.sources []
      delete_ingest_objects job.name
      pure requeue

  pub finalize_ingest : Job → ChunkingSpec → Text → Text → M KnowledgeBase Outcome
  finalize_ingest job eff hash secrets_hash = if is_failed job then fail_ingest job hash else do
    result ← fetch_ingest_result job.name
    elim result [
      | none ↦ pure (requeue_after (5 * second))
      | some r ↦ conclude_ingest job eff hash secrets_hash r
    ]

  defer_ingest : M KnowledgeBase Outcome
  defer_ingest = do
    modify (with_status (λ st. record st { defer_cron_ingest = true }))
    update_and_return s (requeue_after (10 * second))

  -- A Job that still runs: a schedule that comes due is noted for later.
  keep_running : Job → M KnowledgeBase Outcome
  unfolding defer_ingest
  keep_running job = do
    kb ← get
    now ← time_now s
    if is_ingest job.labels.job_type
          && (not (is_empty kb.spec.schedule)
              && cron_due p kb.spec.schedule (time_or_zero kb.status.last_indexed_time) now)
        then defer_ingest
        else pure (requeue_after (10 * second))

  forget_job : Outcome → M KnowledgeBase Outcome
  forget_job out = do
    modify (with_status (λ st. record st { active_job = []; active_job_started_at = none }))
    update_and_return s out

  -- The `switch` on the type of a Job that has ended.
  finalize : Job → ChunkingSpec → Text → Text → M KnowledgeBase Outcome
  unfolding forget_job
  finalize job eff hash secrets_hash = elim job.labels.job_type [
    | ingest ↦
        finalize_ingest job (job_effective_chunking job eff) (job_spec_hash job hash)
          (job_secrets_hash job secrets_hash)
    | eval ↦ finalize_eval p s job
    | _ ↦ forget_job done
  ]

  -- The Job went before its end was seen.
  report_gone : M KnowledgeBase (Outcome × Bool)
  unfolding forget_job
  report_gone = do out ← forget_job done; pure (out, false)

  -- The flag is `handled`: false only where the Job is gone.
  pub reconcile_active_job : ChunkingSpec → Text → Text → M KnowledgeBase (Outcome × Bool)
  unfolding keep_running finalize report_gone
  reconcile_active_job eff hash secrets_hash = do
    kb ← get
    got ← fetch_job s kb.status.active_job
    elim got [
      | refused e ↦ if is_not_found e then report_gone else pure (Outcome.failed e, true)
      | found job ↦ do
        out ←
            (if not (is_complete job) && not (is_failed job)
              then keep_running job
              else finalize job eff hash secrets_hash)
        pure (out, true)
    ]

  fail_run : RunError → M KnowledgeBase Outcome
  fail_run (of_creation e) = quota_or_fail s p e
  fail_run (of_later_call e) = fails e

  -- The calls of startIngest behind the size check, in their order.
  pub launch_ingest : Job → Text → IngestMode → Text → ChunkingSpec → M KnowledgeBase Outcome
  launch_ingest job spec mode hash eff = do
    err ← call s (create_spec_config_map (spec_config_map_name p job.name) spec)
    on_error (ignore_already_exists err) (quota_or_fail s p) do
      err ← prepare_worker_job s p job.name []
      on_error err (quota_or_fail s p) do
        err ← call s (set_controller_reference job.name)
        on_error err fails do
          err ← call s (create_job job)
          on_error err
              (λ e.
                if is_quota_exceeded e
                then quota_or_fail s p e
                else on_error (ignore_already_exists (some e)) fails (pure done))
              do
                err ← record_run s job.name mode hash eff
                on_error err fail_run do
                  now ← time_now s
                  modify (λ kb. set_condition p ready_condition false ingesting_reason (
                      set_condition p ingesting_condition true job_created (
                        with_status
                          (λ st. record st {
                            phase = Phase.ingesting;
                            active_job = job.name;
                            active_job_started_at = some now;
                          })
                          kb)))
                  attempt s (event false ingestion_started)
                  update_and_return s (requeue_after (10 * second))

  pub start_ingest : ChunkingSpec → Text → Text → IngestReason → M KnowledgeBase Outcome
  unfolding launch_ingest
  start_ingest eff hash secrets_hash reason = do
    modify (
        with_status
          (λ st. record st { defer_cron_ingest = false; ingest_round = st.ingest_round + 1 }))
    kb ← get
    let mode = mode_for kb reason
    elim (build_ingest_job p kb hash secrets_hash mode eff) [
      | none ↦ fails (other (codes "cannot build the ingestion job"))
      | some (job, spec) ↦
          if spec_config_map_size_ok spec
          then launch_ingest job spec mode hash eff
          else refuse_large_spec p s
    ]
