-- ===== src/Reconcile.antt =====
-- KnowledgeBaseReconciler.Reconcile of internal/controller/knowledgebase_controller.go, on the object
-- that its first read returned, and ensureVectorIndex of vectorindex_helpers.go. Traces, metrics and
-- logs are not modelled.
pub mod Statuses
pub mod Idle
pub mod Vacancy
pub mod Cancelling
pub mod Deciding
pub mod Flight
pub mod Working
pub mod Current
pub mod Conclusion
pub mod Discarding
pub mod Readiness
pub mod Orphans
pub mod Progress
pub mod Tests
pub mod Edits
use kuberag.Prelude.{
  ltb, if◌then◌else◌, is_empty, text_eq, Text, codes, ◌*◌, Bool, true, false, not, ◌||◌, Option,
  none, some, [], ◌∷◌, ◌++◌,
}
use kuberag.Platform.{Platform}
use kuberag.Api.KnowledgeBase.{
  KnowledgeBase, ChunkingSpec, Phase, ready_condition, worker_service_account_unavailable,
  resource_quota_exceeded, suspended_reason, ingestion_cancelled, ingestion_stuck,
}
use kuberag.Api.Jobs.{Job}
use kuberag.Names.{trunc_name}
use kuberag.Chunking.{effective_chunking}
use kuberag.Labels.{active_ingest_is_stale}
use kuberag.Schedule.{next_fire, next_eval_fire, requeue_for}
use kuberag.Cluster.{
  ◌>>=◌, ◌>>◌, Server, create_or_update_vector_index, update_finalizer, delete_job, event, ApiError,
  M, pure, get, modify, call, attempt, fetch_job, time_now, on_error, Outcome, done, requeue_after,
  fails, second, minute, found, refused, is_quota_exceeded,
}
use kuberag.Status.{set_condition, with_status, status_update, update_and_return}
use kuberag.Identity.{
  validate_custom_worker_service_account, ensure_worker_identity, clear_worker_config_map_access,
}
use kuberag.Jobs.{embedding_dimension}
use kuberag.Decisions.{
  corpus_hash, needs_ingest, eval_due, is_active_job_timed_out, ingest_failure_retry_after,
  spec_config_too_large_unchanged,
}
use kuberag.Evaluation.{start_eval}
use kuberag.Secrets.{compute_secrets_hash}
use kuberag.Ingestion.{reconcile_active_job, read_checkpoint_result, start_ingest}
use kuberag.Deletion.{reconcile_delete}
unfoldable pub use Statuses.{drop_override, stuck}

is_error : Outcome → Bool
is_error (Outcome.failed e) = true
is_error _ = false

module _ (p : Platform) (s : Server) where
  ensure_vector_index : M KnowledgeBase (Option ApiError)
  ensure_vector_index = do
    kb ← get
    let store = kb.spec.vector_store
    let collection = if is_empty store.collection then kb.name else store.collection
    call s (
        create_or_update_vector_index (trunc_name p (kb.name ++ codes "-index"))
          (record store { collection = collection }) (embedding_dimension kb.spec.embedding))

  pending_on_quota : M KnowledgeBase Outcome
  pending_on_quota = do
    modify (λ kb.
        set_condition p ready_condition false resource_quota_exceeded
          (with_status (λ st. record st { phase = Phase.pending }) kb))
    err ← status_update s
    on_error err fails
        do attempt s (event true resource_quota_exceeded); pure (requeue_after minute)

  pend_or_fail : ApiError → M KnowledgeBase Outcome
  unfolding pending_on_quota
  pend_or_fail e = if is_quota_exceeded e then pending_on_quota else fails e

  wait_for_service_account : ApiError → M KnowledgeBase Outcome
  wait_for_service_account e = do
    modify (λ kb.
        set_condition p ready_condition false worker_service_account_unavailable
          (with_status (λ st. record st { phase = Phase.pending }) kb))
    update_and_return s (requeue_after (30 * second))

  mark_suspended : M KnowledgeBase Outcome
  mark_suspended = do
    modify (λ kb.
        set_condition p ready_condition false suspended_reason
          (with_status (λ st. record st { phase = Phase.suspended }) kb))
    update_and_return s done

  suspend : Phase → M KnowledgeBase Outcome
  unfolding mark_suspended
  suspend Phase.suspended = pure done
  suspend Phase.unset = mark_suspended
  suspend _ = mark_suspended

  cancel_stale : Job → M KnowledgeBase (Option ApiError)
  cancel_stale job = do
    attempt s (event false ingestion_cancelled)
    attempt s (delete_job job.name)
    clear_worker_config_map_access s p
    modify (with_status (λ st. record st { active_job = []; active_job_started_at = none }))
    status_update s

  clear_stuck : Job → Text → M KnowledgeBase (Option ApiError)
  clear_stuck job chash = do
    attempt s (event true ingestion_stuck)
    attempt s (delete_job job.name)
    checkpoint ← read_checkpoint_result p s job.name
    clear_worker_config_map_access s p
    now ← time_now s
    modify (stuck p now chash checkpoint)
    status_update s

  pub judge_active : Job → Text → Text → M KnowledgeBase (Option ApiError)
  unfolding cancel_stale clear_stuck
  judge_active job chash secrets_hash = do
    kb ← get
    now ← time_now s
    if active_ingest_is_stale job chash secrets_hash kb.status.observed_spec_hash
          kb.status.observed_secrets_hash
        then cancel_stale job
        else if is_active_job_timed_out job kb.status.active_job_started_at now
        then clear_stuck job chash
        else pure none

  -- A Job that cannot be read is left to reconcileActiveJob.
  pub check_active : Text → Text → M KnowledgeBase (Option ApiError)
  unfolding judge_active
  check_active chash secrets_hash = do
    kb ← get
    if is_empty kb.status.active_job || text_eq kb.status.active_job (kb.name ++ codes "-cleanup")
        then pure none
        else do
          got ← fetch_job s kb.status.active_job
          elim got [ refused e ↦ pure none | found job ↦ judge_active job chash secrets_hash ]

  steady : M KnowledgeBase Outcome
  steady = do
    kb ← get
    now ← time_now s
    let times = next_fire p kb.spec.schedule now ∷ next_eval_fire p kb now ∷ []
    pure (requeue_after (requeue_for now now times))

  -- Ingestion first, then evaluation, then nothing.
  decide : ChunkingSpec → Text → Text → M KnowledgeBase Outcome
  unfolding steady
  decide eff chash secrets_hash = do
    kb ← get
    now ← time_now s
    if ltb 0 (ingest_failure_retry_after kb chash now)
        then pure (requeue_after (ingest_failure_retry_after kb chash now))
        else if spec_config_too_large_unchanged p kb
        then pure done
        else elim (needs_ingest p kb chash now) [
          | some reason ↦ start_ingest p s eff chash secrets_hash reason
          | none ↦ elim kb.spec.retrieval_quality [
            | none ↦ steady
            | some rq ↦
                if eval_due p kb now then start_eval p s rq eff chash secrets_hash else steady
          ]
        ]

  continue_unless : Outcome × Bool → M KnowledgeBase Outcome → M KnowledgeBase Outcome
  continue_unless (out, handled) rest = if is_error out || handled then pure out else rest

  pub finish_active : ChunkingSpec → Text → Text → M KnowledgeBase Outcome
  unfolding decide continue_unless
  finish_active eff chash secrets_hash = do
    kb ← get
    if is_empty kb.status.active_job then decide eff chash secrets_hash else do
      r ← reconcile_active_job p s eff chash secrets_hash
      continue_unless r (decide eff chash secrets_hash)

  -- From computeSecretsHash on.
  pub work : M KnowledgeBase Outcome
  unfolding check_active finish_active
  work = do
    secrets_hash ← compute_secrets_hash s p
    kb ← get
    let chash = corpus_hash p kb
    modify (λ kb.
        drop_override chash
          (with_status (λ st. record st { observed_secrets_hash = secrets_hash }) kb))
    kb ← get
    let eff = effective_chunking kb
    err ← check_active chash secrets_hash
    on_error err fails (finish_active eff chash secrets_hash)

  -- `if kb.Spec.Suspend { … }`, and the code behind it.
  suspend_or_work : Bool → Phase → M KnowledgeBase Outcome
  unfolding suspend work
  suspend_or_work true phase = suspend phase
  suspend_or_work false phase = work

  with_index : M KnowledgeBase Outcome
  unfolding pend_or_fail
  with_index = do
    err ← ensure_vector_index
    on_error err pend_or_fail do kb ← get; suspend_or_work kb.spec.suspend kb.status.phase

  with_identity : M KnowledgeBase Outcome
  with_identity = do err ← ensure_worker_identity s p []; on_error err pend_or_fail with_index

  -- From the worker's identity on.
  prepare : M KnowledgeBase Outcome
  unfolding ensure_vector_index wait_for_service_account
  prepare = do
    err ← validate_custom_worker_service_account s
    on_error err wait_for_service_account with_identity

  add_finalizer : M KnowledgeBase Outcome
  add_finalizer = do
    modify (λ kb. record kb { has_finalizer = true })
    err ← call s (update_finalizer true)
    on_error err fails (pure done)

  pub reconcile : M KnowledgeBase Outcome
  unfolding add_finalizer
  reconcile = do
    kb ← get
    if kb.deleting
        then reconcile_delete p s
        else if not kb.has_finalizer
        then add_finalizer
        else prepare
