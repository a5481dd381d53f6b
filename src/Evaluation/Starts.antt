-- ===== src/Evaluation/Starts.antt =====
-- startEval creates one Job at most.
use kuberag.History.Keeps.{by_calls}
use kuberag.Prelude.{
  if◌then◌else◌, Option-cases, Text, codes, ◌+◌, ◌*◌, ◌≡◌, refl, inl, inr, false, Option, none,
  some, List, [], ◌∷◌, arith,
}
use kuberag.Platform.{Platform}
use kuberag.Api.KnowledgeBase.{
  KnowledgeBase, ChunkingSpec, RetrievalQualitySpec, evaluated_condition, evaluating,
  evaluation_started,
}
use kuberag.Api.Jobs.{Job}
use kuberag.Names.{spec_config_map_name}
use kuberag.Cluster.{
  ◌>>=◌, Server, Pass, M, call, attempt, time_now, create_spec_config_map, create_job,
  set_controller_reference, event, Outcome, done, fails, other, pure, requeue_after, second,
  on_error, ignore_already_exists, is_quota_exceeded,
}
use kuberag.Status.{set_condition, with_status, quota_or_fail}
use kuberag.Status.Keeps.{quota_or_fail-Keeps, update_and_return-Keeps}
use kuberag.Identity.{prepare_worker_job}
use kuberag.Identity.Keeps.{prepare_worker_job-Keeps}
use kuberag.History.Launches.{
  active, Frees, Frees-IsLoose, Launched, Launched-IsLoose, Starts, Plain-refl, asked, taken,
}
use kuberag.Jobs.{build_eval_job, spec_config_map_size_ok}
use kuberag.Evaluation.{launch_eval, start_eval, refuse_large_spec}
use kuberag.Evaluation.Keeps.{refuse_large_spec-Keeps}

module _ (p : Platform) (s : Server) where
  -- The calls that startEval and startIngest have in common, and what follows where all are taken.
  abbrev pub launch : Job → Text → List Text → M KnowledgeBase Outcome → M KnowledgeBase Outcome
  launch job spec additional rest = do
    err ← call s (create_spec_config_map (spec_config_map_name p job.name) spec)
    on_error (ignore_already_exists err) (quota_or_fail s p) do
      err ← prepare_worker_job s p job.name additional
      on_error err (quota_or_fail s p) do
        err ← call s (set_controller_reference job.name)
        on_error err fails do
          err ← call s (create_job job)
          on_error err
              (λ e.
                if is_quota_exceeded e
                then quota_or_fail s p e
                else on_error (ignore_already_exists (some e)) fails (pure done))
              rest

module _ (p : Platform) (s : Server) (w : Pass KnowledgeBase) (idle : active w ≡ []) where
  pub launch-Starts :
      (job : Job) (spec : Text) (additional : List Text) (rest : M KnowledgeBase Outcome)
      (u : Pass KnowledgeBase)
      → ((v : Pass KnowledgeBase)
          → s.ack v.log (create_job job) ≡ none
          → Frees w v
          → Starts s w (rest (record v { log = create_job job ∷ v.log })).1)
      → Frees w u
      → Starts s w (launch p s job spec additional rest u).1
  unfolding call
  launch-Starts job spec additional rest u go f =
      let st = (Frees-IsLoose w).steady in
      let ls = (Launched-IsLoose s w).steady in
      let c = create_spec_config_map (spec_config_map_name p job.name) spec in
      let u1 : Pass KnowledgeBase = record u { log = c ∷ u.log } in
      let f1 = st.called c u.object u.log refl f in
      let m2 = prepare_worker_job s p job.name additional u1 in
      let f2 = prepare_worker_job-Keeps s (Frees w) (by_calls st) p job.name additional u1 f1 in
      let own = set_controller_reference job.name in
      let u3 : Pass KnowledgeBase = record { object = m2.1.object; log = own ∷ m2.1.log } in
      let f3 = st.called own m2.1.object m2.1.log refl f2 in
      let l4 = asked s job idle f3 in
      elim (Option-cases (ignore_already_exists (s.ack u.log c))) [
        | inr (e, bad) ↦ rw (bad, on_error) (inl (quota_or_fail-Keeps s (Frees w) st p e u1 f1))
        | inl made ↦ elim (Option-cases m2.0) [
          | inr (e, bad) ↦
              rw (made, bad, on_error) (inl (quota_or_fail-Keeps s (Frees w) st p e m2.1 f2))
          | inl ready ↦ elim (Option-cases (s.ack m2.1.log own)) [
            | inr (e, bad) ↦ rw (made, ready, bad, on_error) (inl f3)
            | inl owned ↦ elim (Option-cases (s.ack u3.log (create_job job))) [
              | inr (e, bad) ↦
                  rw (made, ready, owned, bad, on_error)
                    (let over = quota_or_fail-Keeps s (Launched s w) ls p e _ l4 in ground arith)
              | inl took ↦ rw (made, ready, owned, took, on_error) (go u3 took f3)
            ]
          ]
        ]
      ]

  launch_eval-Starts :
      (job : Job) (spec dataset : Text) (u : Pass KnowledgeBase)
      → Frees w u
      → Starts s w (launch_eval p s job spec dataset u).1
  unfolding launch_eval time_now attempt set_condition
  launch_eval-Starts job spec dataset u f =
      launch-Starts job spec (dataset ∷ []) _ u
        (λ v took g.
          let ls = (Launched-IsLoose s w).steady in
          let now = s.now (create_job job ∷ v.log) in
          let kb = set_condition p evaluated_condition false evaluating (
            with_status
              (λ st. record st { active_job = job.name; active_job_started_at = some now })
              v.object) in
          let l =
            ls.called (event false evaluation_started) kb _ refl
              (taken s job kb _ took refl (Plain-refl _) g) in
          inr (update_and_return-Keeps s (Launched s w) ls (requeue_after (10 * second)) _ l))
        f

  abbrev launch_built : Text → Option (Job × Text) → M KnowledgeBase Outcome
  launch_built dataset built = elim built [
    | none ↦ fails (other (codes "cannot build the evaluation job"))
    | some (job, spec) ↦
        if spec_config_map_size_ok spec
        then launch_eval p s job spec dataset
        else refuse_large_spec p s
  ]

  launch_built-Starts :
      (dataset : Text) (built : Option (Job × Text)) (u : Pass KnowledgeBase)
      → Frees w u
      → Starts s w (launch_built dataset built u).1
  launch_built-Starts dataset none u f = inl f
  launch_built-Starts dataset (some (job, spec)) u f =
      let on = launch_eval-Starts job spec dataset u f in
      let over : Starts s w (refuse_large_spec p s u).1 =
        inl (refuse_large_spec-Keeps p s (Frees w) (Frees-IsLoose w).steady u f) in
      ground arith

  pub start_eval-Starts :
      (rq : RetrievalQualitySpec) (eff : ChunkingSpec) (hash secrets_hash : Text)
      (u : Pass KnowledgeBase)
      → Frees w u
      → Starts s w (start_eval p s rq eff hash secrets_hash u).1
  unfolding start_eval
  start_eval-Starts rq eff hash secrets_hash u f =
      let kb = with_status (λ st. record st { eval_round = st.eval_round + 1 }) u.object in
      launch_built-Starts rq.dataset_ref
        (build_eval_job p kb hash secrets_hash kb.status.eval_round eff rq.dataset_ref rq.top_k) _
        ((Frees-IsLoose w).steady.changed u.object kb u.log refl f)
