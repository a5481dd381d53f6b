-- ===== src/Evaluation.antt =====
-- internal/controller/evaluation_controller.go: startEval and finalizeEval. Messages, metrics and
-- logs are not modelled; the clock is read once where no call stands between two readings.
pub mod Verdicts
pub mod Persistence
pub mod Keeps
pub mod Starts
pub mod Success
use kuberag.Prelude.{
  ltb, ◌==◌, if◌then◌else◌, Text, codes, ◌+◌, ◌*◌, Bool, true, false, ◌&&◌, Option, none, some, [],
  ◌∷◌,
}
use kuberag.Platform.{Platform}
use kuberag.Api.KnowledgeBase.{
  KnowledgeBase, Time, ChunkingSpec, Phase, RetrievalQualitySpec, ready_condition,
  evaluated_condition, Reason, eval_failed, no_dataset, eval_no_dataset, recall_met, auto_tuning,
  auto_tune_settling, recall_below_target, evaluating, evaluation_started, spec_config_too_large,
}
use kuberag.Api.Jobs.{Job, EvalResult}
use kuberag.Names.{result_config_map_name, spec_config_map_name}
use kuberag.Cluster.{
  ◌>>=◌, ◌>>◌, Server, delete_config_map, create_spec_config_map, create_job,
  set_controller_reference, event, other, M, pure, get, modify, call, attempt, fetch_key, time_now,
  on_error, Outcome, done, requeue, requeue_after, fails, second, found, refused, is_quota_exceeded,
  ignore_already_exists,
}
use kuberag.Status.{set_condition, with_status, status_update, update_and_return, quota_or_fail}
use kuberag.Identity.{prepare_worker_job, clear_worker_config_map_access}
use kuberag.Jobs.{build_eval_job, spec_config_map_size_ok}
use kuberag.AutoTune.{
  apply_auto_tune, record_best, settle_on_best, auto_tune_enabled, auto_tune_max,
  record_auto_tune_duration,
}
use kuberag.Decisions.{is_failed}

-- What an evaluation below the target leads to, and the other branches of finalizeEval.
pub data Verdict : Type 0 where
  empty_dataset met tuned settled below : Verdict
  -- `rq` is nil where its field is read.
  panics : Verdict

-- `kb.Status.Phase = Degraded` and the two conditions, with their one reason.
degrade : Platform → KnowledgeBase → KnowledgeBase
degrade p kb = set_condition p evaluated_condition false recall_below_target (
    set_condition p ready_condition false recall_below_target
      (with_status (λ st. record st { phase = Phase.degraded }) kb))

-- `if settleOnBest(kb) { … }`, and the code behind it.
settle_or_degrade : Platform → KnowledgeBase × Bool → KnowledgeBase × Verdict
unfolding degrade
settle_or_degrade p (kb, true) =
    (set_condition p evaluated_condition false auto_tune_settling kb, settled)
settle_or_degrade p (kb, false) = (degrade p kb, below)

-- The code behind recordBest.
tune : Platform → Time → RetrievalQualitySpec → KnowledgeBase → KnowledgeBase × Verdict
unfolding settle_or_degrade
tune p now rq kb =
    if auto_tune_enabled rq
    then if ltb kb.status.auto_tune_attempts (auto_tune_max rq)
      then (set_condition p evaluated_condition false auto_tuning (apply_auto_tune now kb), tuned)
      else settle_or_degrade p (settle_on_best (record_auto_tune_duration kb))
    else (degrade p kb, below)

-- The branch `if !below { … }`.
meet : Platform → KnowledgeBase → KnowledgeBase
meet p kb = set_condition p evaluated_condition true recall_met (
    with_status
      (λ st. record st { auto_tune_attempts = 0; best_chunking = none; best_recall_percent = 0 })
      (record_auto_tune_duration (with_status (λ st. record st { phase = Phase.ready }) kb)))

judge_target :
    Platform → Time → EvalResult → RetrievalQualitySpec → KnowledgeBase → KnowledgeBase × Verdict
unfolding tune meet
judge_target p now result rq kb =
    let target = rq.minimum_recall_percent in
    if ltb 0 target && ltb result.recall_percent target
    then tune p now rq (record_best result.recall_percent kb)
    else (meet p kb, met)

-- `kb.Status.Evaluation = &EvaluationStatus{…}`
abbrev pub evaluated : Time → EvalResult → KnowledgeBase → KnowledgeBase
evaluated now result kb =
    with_status
      (λ st. record st {
        evaluation = some (record {
          recall_percent = result.recall_percent;
          p95_latency_millis = result.p95_latency_millis;
          queries = result.queries;
          time = some now;
        });
      })
      kb

-- finalizeEval on the KnowledgeBase in memory, from the new evaluation on.
unfoldable pub judge : Platform → Time → EvalResult → KnowledgeBase → KnowledgeBase × Verdict
unfolding judge_target
judge p now result kb =
    let kb' = evaluated now result kb in
    if result.queries == 0
    then (set_condition p evaluated_condition false no_dataset kb', empty_dataset)
    else elim kb'.spec.retrieval_quality [
      | none ↦ (kb', panics)
      | some rq ↦ judge_target p now result rq kb'
    ]

-- The warning flag and reason of the event of each branch.
verdict_event : Verdict → Bool × Reason
verdict_event empty_dataset = (true, eval_no_dataset)
verdict_event met = (false, recall_met)
verdict_event tuned = (false, auto_tuning)
verdict_event settled = (false, auto_tune_settling)
verdict_event _ = (true, recall_below_target)

pub is_panic : Verdict → Bool
is_panic panics = true
is_panic _ = false

module _ (p : Platform) (s : Server) where
  delete_eval_maps : Text → M KnowledgeBase (Unit {0})
  delete_eval_maps job = do
    attempt s (delete_config_map (result_config_map_name p job))
    attempt s (delete_config_map (spec_config_map_name p job))

  -- The end of each branch: the deletions stand behind a status update that succeeded.
  pub persist_eval : Text → M KnowledgeBase Outcome
  unfolding delete_eval_maps
  persist_eval job = do
    err ← status_update s
    on_error err fails do delete_eval_maps job; pure requeue

  pub fetch_eval_result : Text → M KnowledgeBase (Option EvalResult)
  fetch_eval_result job = do
    raw ← fetch_key s (result_config_map_name p job) (codes "result.json")
    pure (elim raw [
      | refused e ↦ none
      | found value ↦ elim value [ none ↦ none | some text ↦ p.eval_result text ]
    ])

  fail_eval : Job → M KnowledgeBase Outcome
  fail_eval job = do
    clear_worker_config_map_access s p
    modify (set_condition p evaluated_condition false eval_failed)
    attempt s (event true eval_failed)
    persist_eval job.name

  -- A panic leaves the handler behind the new evaluation; the runtime reports an error.
  abbrev pub panicked : Outcome
  panicked = Outcome.failed (other (codes "panic: nil pointer dereference"))

  pub conclude_eval : Job → EvalResult → M KnowledgeBase Outcome
  unfolding verdict_event
  conclude_eval job result = do
    clear_worker_config_map_access s p
    now ← time_now s
    kb ← get
    let (kb', verdict) = judge p now result kb
    modify (λ _. kb')
    if is_panic verdict then pure panicked else do
      attempt s (event (verdict_event verdict).0 (verdict_event verdict).1)
      persist_eval job.name

  pub finalize_eval : Job → M KnowledgeBase Outcome
  finalize_eval job = do
    modify (with_status (λ st. record st { active_job = []; active_job_started_at = none }))
    if is_failed job then fail_eval job else do
      result ← fetch_eval_result job.name
      elim result [ none ↦ pure (requeue_after (5 * second)) | some r ↦ conclude_eval job r ]

  -- A spec that a ConfigMap cannot hold, in startEval and startIngest alike.
  pub refuse_large_spec : M KnowledgeBase Outcome
  refuse_large_spec = do
    modify (λ kb.
        set_condition p ready_condition false spec_config_too_large
          (with_status (λ st. record st { phase = Phase.failed }) kb))
    update_and_return s done

  -- The calls of startEval behind the size check, in their order.
  launch_eval : Job → Text → Text → M KnowledgeBase Outcome
  launch_eval job spec dataset = do
    err ← call s (create_spec_config_map (spec_config_map_name p job.name) spec)
    on_error (ignore_already_exists err) (quota_or_fail s p) do
      err ← prepare_worker_job s p job.name (dataset ∷ [])
      on_error err (quota_or_fail s p) do
        err ← call s (set_controller_reference job.name)
        on_error err fails do
          err ← call s (create_job job)
          on_error err
              (λ e.
                if is_quota_exceeded e
                then quota_or_fail s p e
                else on_error (ignore_already_exists (some e)) fails (pure done))
              do
                now ← time_now s
                modify (λ kb. set_condition p evaluated_condition false evaluating (
                    with_status
                      (λ st. record st { active_job = job.name; active_job_started_at = some now })
                      kb))
                attempt s (event false evaluation_started)
                update_and_return s (requeue_after (10 * second))

  -- evalDue has made sure that the retrieval quality is there.
  unfoldable pub start_eval :
      RetrievalQualitySpec → ChunkingSpec → Text → Text → M KnowledgeBase Outcome
  unfolding launch_eval
  start_eval rq eff hash secrets_hash = do
    modify (with_status (λ st. record st { eval_round = st.eval_round + 1 }))
    kb ← get
    elim (build_eval_job p kb hash secrets_hash kb.status.eval_round eff rq.dataset_ref rq.top_k) [
      | none ↦ fails (other (codes "cannot build the evaluation job"))
      | some (job, spec) ↦
          if spec_config_map_size_ok spec
          then launch_eval job spec rq.dataset_ref
          else refuse_large_spec
    ]
