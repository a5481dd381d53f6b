-- ===== src/Ingestion/Starts.antt =====
-- startIngest creates one Job at most.
use kuberag.History.Keeps.{by_calls}
use kuberag.Prelude.{
  if◌then◌else◌, Option-cases, Text, codes, ◌+◌, ◌*◌, ◌≡◌, refl, inl, inr, true, false, Option,
  none, some, [], ◌∷◌, arith,
}
use kuberag.Platform.{Platform}
use kuberag.Api.KnowledgeBase.{
  KnowledgeBase, Time, ChunkingSpec, IngestMode, Phase, ready_condition, ingesting_condition,
  job_created, ingesting_reason, ingestion_started,
}
use kuberag.Api.Jobs.{Job}
use kuberag.Cluster.{
  Server, Pass, M, attempt, time_now, create_job, event, Outcome, fails, other, requeue_after,
  second, on_error,
}
use kuberag.Status.{set_condition, with_status}
use kuberag.Status.Keeps.{quota_or_fail-Keeps, update_and_return-Keeps}
use kuberag.Decisions.{IngestReason}
use kuberag.History.Launches.{
  active, Frees, Frees-IsLoose, Launched, Launched-IsLoose, Starts, Plain, Plain-refl,
  Plain-IsSteady, asked, taken,
}
use kuberag.Evaluation.{refuse_large_spec}
use kuberag.Evaluation.Keeps.{refuse_large_spec-Keeps}
use kuberag.Evaluation.Starts.{launch-Starts}
use kuberag.Ingestion.Runs.{record_run, RunError, of_creation, of_later_call}
use kuberag.Ingestion.Runs.Keeps.{record_run-Keeps}
use kuberag.Jobs.{build_ingest_job, spec_config_map_size_ok}
use kuberag.Ingestion.{launch_ingest, start_ingest, fail_run, mode_for}

-- The status of startIngest behind the creation of its Job.
abbrev pub begun : Platform → Text → Time → KnowledgeBase → KnowledgeBase
begun p job now kb = set_condition p ready_condition false ingesting_reason (
    set_condition p ingesting_condition true job_created (
      with_status
        (λ st. record st {
          phase = Phase.ingesting;
          active_job = job;
          active_job_started_at = some now;
        })
        kb))

module _ (p : Platform) (s : Server) where
  -- What startIngest does behind the build of its Job.
  abbrev pub launch_built :
      IngestMode → Text → ChunkingSpec → Option (Job × Text) → M KnowledgeBase Outcome
  launch_built mode hash eff built = elim built [
    | none ↦ fails (other (codes "cannot build the ingestion job"))
    | some (job, spec) ↦
        if spec_config_map_size_ok spec
        then launch_ingest p s job spec mode hash eff
        else refuse_large_spec p s
  ]

module _ (p : Platform) (s : Server) (w : Pass KnowledgeBase) (idle : active w ≡ []) where
  fail_run-Launched :
      (e : RunError) (u : Pass KnowledgeBase) → Launched s w u → Launched s w (fail_run p s e u).1
  unfolding fail_run
  fail_run-Launched (of_creation e) u l =
      quota_or_fail-Keeps s (Launched s w) (Launched-IsLoose s w).steady p e u l
  fail_run-Launched (of_later_call e) u l = l

  launch_ingest-Starts :
      (job : Job) (spec : Text) (mode : IngestMode) (hash : Text) (eff : ChunkingSpec)
      (u : Pass KnowledgeBase)
      → Frees w u
      → Starts s w (launch_ingest p s job spec mode hash eff u).1
  unfolding launch_ingest time_now attempt set_condition
  launch_ingest-Starts job spec mode hash eff u f =
      launch-Starts p s w idle job spec [] _ u
        (λ v took g.
          let ls = (Launched-IsLoose s w).steady in
          let g0 = create_job job ∷ v.log in
          let v1 : Pass KnowledgeBase = record { object = v.object; log = g0 } in
          let r = record_run s job.name mode hash eff v1 in
          let l1 =
            record_run-Keeps s (Launched s w) (by_calls ls) job.name mode hash eff v1
              (asked s job idle g) in
          let h1 =
            record_run-Keeps s (λ x. Plain g0 x.log) (by_calls (Plain-IsSteady g0)) job.name mode
              hash eff v1 (Plain-refl g0) in
          let now = s.now r.1.log in
          let kb = begun p job.name now r.1.object in
          let l2 = taken s job kb r.1.log took refl h1 g in
          let l3 = ls.called (event false ingestion_started) kb r.1.log refl l2 in
          let end =
            update_and_return-Keeps s (Launched s w) ls (requeue_after (10 * second)) _ l3 in
          elim (Option-cases r.0) [
            | inr (e, bad) ↦ rw (bad, on_error) (inr (fail_run-Launched e r.1 l1))
            | inl good ↦ rw (good, on_error) (inr end)
          ])
        f

  launch_built-Starts :
      (mode : IngestMode) (hash : Text) (eff : ChunkingSpec) (built : Option (Job × Text))
      (u : Pass KnowledgeBase)
      → Frees w u
      → Starts s w (launch_built p s mode hash eff built u).1
  launch_built-Starts mode hash eff none u f = inl f
  launch_built-Starts mode hash eff (some (job, spec)) u f =
      let on = launch_ingest-Starts job spec mode hash eff u f in
      let over : Starts s w (refuse_large_spec p s u).1 =
        inl (refuse_large_spec-Keeps p s (Frees w) (Frees-IsLoose w).steady u f) in
      ground arith

  pub start_ingest-Starts :
      (eff : ChunkingSpec) (hash secrets_hash : Text) (reason : IngestReason)
      (u : Pass KnowledgeBase)
      → Frees w u
      → Starts s w (start_ingest p s eff hash secrets_hash reason u).1
  unfolding start_ingest
  start_ingest-Starts eff hash secrets_hash reason u f =
      let kb =
        with_status
          (λ st. record st { defer_cron_ingest = false; ingest_round = st.ingest_round + 1 })
          u.object in
      launch_built-Starts (mode_for kb reason) hash eff
        (build_ingest_job p kb hash secrets_hash (mode_for kb reason) eff) _
        ((Frees-IsLoose w).steady.changed u.object kb u.log refl f)
