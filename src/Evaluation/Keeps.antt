-- ===== src/Evaluation/Keeps.antt =====
-- What finalizeEval and the refusal of a large spec keep.
use kuberag.Prelude.{
  Bool-cases, Text, ◌*◌, ◌≡◌, refl, inl, inr, true, false, Option, none, some, [], arith,
}
use kuberag.Platform.{Platform}
use kuberag.Api.KnowledgeBase.{KnowledgeBase, Time, evaluated_condition, eval_failed}
use kuberag.Api.Jobs.{Job, EvalResult}
use kuberag.Names.{result_config_map_name, spec_config_map_name}
use kuberag.Cluster.{
  ◌>>=◌, ◌>>◌, Server, Pass, M, attempt, time_now, fetch_key, get_config_map, delete_config_map,
  event, Outcome, done, pure, requeue_after, second,
}
use kuberag.Status.{set_condition, with_status}
use kuberag.Status.Keeps.{status_update-Keeps, update_and_return-Keeps}
use kuberag.Identity.Keeps.{clear-Keeps}
use kuberag.Identity.{clear_worker_config_map_access}
use kuberag.History.Keeps.{by_calls, Keeps, IsSteady, IsLoose}
use kuberag.Decisions.{is_failed}
use kuberag.AutoTune.{apply_auto_tune, record_best, settle_on_best, record_auto_tune_duration}
use kuberag.Evaluation.{
  persist_eval, delete_eval_maps, fail_eval, conclude_eval, finalize_eval, fetch_eval_result,
  refuse_large_spec, judge, is_panic, verdict_event,
}

judge-active_job :
    (p : Platform) (now : Time) (r : EvalResult) (kb : KnowledgeBase)
    → (judge p now r kb).0.status.active_job ≡ kb.status.active_job
unfolding judge set_condition apply_auto_tune record_best settle_on_best record_auto_tune_duration
judge-active_job p now r kb = ground arith

module _ (p : Platform) (s : Server) (Q : Pass KnowledgeBase → Type 0) (st : IsSteady Q) where
  pub refuse_large_spec-Keeps : Keeps Q (refuse_large_spec p s)
  unfolding refuse_large_spec set_condition
  refuse_large_spec-Keeps w q =
      update_and_return-Keeps s Q st done _ (st.changed w.object _ w.log refl q)

  persist_eval-Keeps : (job : Text) → Keeps Q (persist_eval p s job)
  unfolding persist_eval delete_eval_maps attempt
  persist_eval-Keeps job w q =
      let kept = status_update-Keeps s Q st w q in
      let one = st.called (delete_config_map (result_config_map_name p job)) _ _ refl kept in
      let two = st.called (delete_config_map (spec_config_map_name p job)) _ _ refl one in
      ground arith

  fail_eval-Keeps : (job : Job) → Keeps Q (fail_eval p s job)
  unfolding fail_eval attempt set_condition
  fail_eval-Keeps job w q =
      let u = (clear_worker_config_map_access s p w).1 in
      persist_eval-Keeps job.name _ (
        st.called (event true eval_failed)
          (set_condition p evaluated_condition false eval_failed u.object) u.log refl
          (st.changed u.object _ u.log refl (clear-Keeps s Q (by_calls st) p w q)))

  conclude_eval-Keeps : (job : Job) (r : EvalResult) → Keeps Q (conclude_eval p s job r)
  unfolding conclude_eval attempt time_now
  conclude_eval-Keeps job r w q =
      let cleared = clear-Keeps s Q (by_calls st) p w q in
      let u = (clear_worker_config_map_access s p w).1 in
      let out = judge p (s.now u.log) r u.object in
      let judged =
        st.changed u.object out.0 u.log (judge-active_job p (s.now u.log) r u.object) cleared in
      let told =
        st.called (event (verdict_event out.1).0 (verdict_event out.1).1) _ _ refl judged in
      let kept = persist_eval-Keeps job.name _ told in
      elim (Bool-cases (is_panic out.1)) [
        | inl bad ↦ rw (bad, conclude_eval) judged
        | inr good ↦ rw (good, conclude_eval) kept
      ]

  abbrev conclusion : Job → Option EvalResult → M KnowledgeBase Outcome
  conclusion job result = elim result [
    | none ↦ pure (requeue_after (5 * second))
    | some r ↦ conclude_eval p s job r
  ]

  conclusion-Keeps : (job : Job) (result : Option EvalResult) → Keeps Q (conclusion job result)
  conclusion-Keeps job none w q = q
  conclusion-Keeps job (some r) w q = conclude_eval-Keeps job r w q

module _ (p : Platform) (s : Server) (Q : Pass KnowledgeBase → Type 0) (loose : IsLoose Q) where
  pub finalize_eval-Keeps : (job : Job) → Keeps Q (finalize_eval p s job)
  unfolding finalize_eval fetch_eval_result fetch_key
  finalize_eval-Keeps job w q =
      let st = loose.steady in
      let freed =
        loose.cleared w.object
          (with_status (λ t. record t { active_job = []; active_job_started_at = none }) w.object)
          w.log refl q in
      let read = st.called (get_config_map (result_config_map_name p job.name)) _ _ refl freed in
      elim (Bool-cases (is_failed job)) [
        | inl bad ↦ rw (bad, finalize_eval, ◌>>=◌, ◌>>◌) (fail_eval-Keeps p s Q st job _ freed)
        | inr good ↦ rw (good, finalize_eval, ◌>>=◌, ◌>>◌) (conclusion-Keeps p s Q st job _ _ read)
      ]
