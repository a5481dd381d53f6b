-- ===== src/Evaluation/Persistence.antt =====
-- finalizeEval, and what it deletes.
use kuberag.Prelude.{
  Bool-cases, Option-cases, Text, ◌*◌, ◌≡◌, refl, ◌∙◌, inl, inr, Option, none, some, [], ◌∷◌, arith,
}
use kuberag.Platform.{Platform}
use kuberag.Api.KnowledgeBase.{KnowledgeBase}
use kuberag.Api.Jobs.{Job, EvalResult}
use kuberag.Names.{result_config_map_name, spec_config_map_name}
use kuberag.Cluster.{
  Server, Pass, delete_config_map, attempt, fetch_key, time_now, M, pure, Outcome, requeue_after,
  second, ◌>>=◌, ◌>>◌,
}
use kuberag.History.{deletions, SafeEnd}
use kuberag.Status.{with_status, status_update}
use kuberag.Status.Saving.{status_update-Saves, status_update-stored}
use kuberag.Identity.{clear_worker_config_map_access}
use kuberag.Identity.Calls.{clear-Quiet}
use kuberag.Decisions.{is_failed}
use kuberag.Evaluation.{
  persist_eval, fetch_eval_result, fail_eval, conclude_eval, finalize_eval, judge, is_panic,
}

pub SafeEnd-from :
    (s : Server) {u v w : Pass KnowledgeBase}
    → deletions v.log ≡ deletions u.log
    → SafeEnd s v w
    → SafeEnd s u w
SafeEnd-from s e (inl same) = inl (same ∙ e)
SafeEnd-from s e (inr first) = inr (record {
  saved_at = first.saved_at;
  later = first.later;
  split = first.split;
  kept = first.kept ∙ e;
  saved = first.saved;
})

module _ (p : Platform) (s : Server) where
  persist_eval-SafeEnd :
      (job : Text) (w : Pass KnowledgeBase) → SafeEnd s w (persist_eval p s job w).1
  unfolding persist_eval attempt
  persist_eval-SafeEnd job w =
      let after = status_update s w in
      let law = status_update-Saves s w in
      elim (Option-cases after.0) [
        | inr (x, e) ↦ rw (e, persist_eval) (inl law.quiet.no_deletions)
        | inl e ↦
            rw (e, persist_eval)
              (inr (record {
                saved_at = after.1.log;
                later =
                    delete_config_map (spec_config_map_name p job)
                    ∷ delete_config_map (result_config_map_name p job)
                    ∷ [];
                split = refl;
                kept = law.quiet.no_deletions;
                saved = status_update-stored s w e;
              }))
      ]

  fail_eval-SafeEnd : (job : Job) (w : Pass KnowledgeBase) → SafeEnd s w (fail_eval p s job w).1
  unfolding fail_eval attempt
  fail_eval-SafeEnd job w =
      SafeEnd-from s (omega (arith, (clear-Quiet s p w).no_deletions))
        (persist_eval-SafeEnd job.name _)

  conclude_eval-SafeEnd :
      (job : Job) (r : EvalResult) (w : Pass KnowledgeBase)
      → SafeEnd s w (conclude_eval p s job r w).1
  unfolding conclude_eval attempt time_now
  conclude_eval-SafeEnd job r w =
      let u = (clear_worker_config_map_access s p w).1 in
      let quiet = clear-Quiet s p w in
      let out = judge p (s.now u.log) r u.object in
      elim (Bool-cases (is_panic out.1)) [
        | inl e ↦ rw (e, conclude_eval) (inl quiet.no_deletions)
        | inr e ↦
            rw (e, conclude_eval)
              (SafeEnd-from s (omega (arith, quiet.no_deletions)) (persist_eval-SafeEnd job.name _))
      ]

  fetch-deletions :
      (job : Text) (w : Pass KnowledgeBase)
      → deletions (fetch_eval_result p s job w).1.log ≡ deletions w.log
  unfolding fetch_eval_result fetch_key
  fetch-deletions job w = omega arith

  abbrev conclusion : Job → Option EvalResult → M KnowledgeBase Outcome
  conclusion job result = elim result [
    | none ↦ pure (requeue_after (5 * second))
    | some r ↦ conclude_eval p s job r
  ]

  fetched :
      (job : Job) (w : Pass KnowledgeBase)
      → SafeEnd s w
          (conclusion job
            (fetch_eval_result p s job.name w).0
            (fetch_eval_result p s job.name w).1).1
  fetched job w =
      let u = (fetch_eval_result p s job.name w).1 in
      elim (Option-cases (fetch_eval_result p s job.name w).0) [
        | inl e ↦ rw (e, conclusion) (inl (fetch-deletions job.name w))
        | inr (r, e) ↦
            rw (e, conclusion)
              (SafeEnd-from s (fetch-deletions job.name w) (conclude_eval-SafeEnd job r u))
      ]

  abbrev cleared : Pass KnowledgeBase → Pass KnowledgeBase
  cleared w = record w {
    object =
        with_status (λ st. record st { active_job = []; active_job_started_at = none }) w.object;
  }

  -- Whatever the server answers, finalizeEval deletes nothing, or the very status that it ends with
  -- had been taken by the server at a point of the pass where nothing had been deleted: a result is
  -- never lost with its conclusion.
  pub finalize_eval-SafeEnd :
      (job : Job) (w : Pass KnowledgeBase) → SafeEnd s w (finalize_eval p s job w).1
  unfolding finalize_eval
  finalize_eval-SafeEnd job w =
      let u = cleared w in
      elim (Bool-cases (is_failed job)) [
        | inl e ↦ rw (e, finalize_eval, ◌>>=◌, ◌>>◌) (SafeEnd-from s refl (fail_eval-SafeEnd job u))
        | inr e ↦ rw (e, finalize_eval, ◌>>=◌, ◌>>◌) (SafeEnd-from s refl (fetched job u))
      ]
