-- ===== src/Ingestion/Keeps.antt =====
-- What reconcileActiveJob keeps, and what it has seen where it says that the Job is gone.
use kuberag.Prelude.{
  if◌then◌else◌, Bool-cases, Text, codes, ◌*◌, ◌≡◌, refl, sym, inl, inr, Bool, true, false, not,
  ◌&&◌, Option, none, some, [], ◌∷◌, arith,
}
use mathlib.Core.Path.{subst}
use kuberag.Platform.{Platform}
use kuberag.Names.{result_config_map_name, checkpoint_config_map_name, spec_config_map_name}
use kuberag.Api.KnowledgeBase.{KnowledgeBase, ChunkingSpec, ingestion_failed, ingestion_complete}
use kuberag.Api.Jobs.{Job, JobType, IngestResult, ingest, eval, cleanup}
use kuberag.Api.Runs.{RunPhase}
use kuberag.Labels.{job_effective_chunking, job_spec_hash, job_secrets_hash}
use kuberag.Cluster.{
  ◌>>=◌, Server, Pass, M, attempt, time_now, fetch_key, fetch_job, get_job, get_config_map,
  delete_config_map, delete_job, event, Outcome, done, pure, requeue_after, second, Got, found,
  refused, is_not_found, not_found, answer-refused,
}
use kuberag.Status.{set_condition, with_status}
use kuberag.Status.Keeps.{status_update-Keeps, update_and_return-Keeps}
use kuberag.Identity.{clear_worker_config_map_access}
use kuberag.Identity.Keeps.{clear-Keeps}
use kuberag.History.Keeps.{by_calls, Keeps, IsSteady, IsLoose}
use kuberag.Evaluation.{finalize_eval}
use kuberag.Evaluation.Keeps.{finalize_eval-Keeps}
use kuberag.Decisions.{is_failed, is_complete}
use kuberag.Ingestion.Runs.Keeps.{finalize_ingestion_run-Keeps}
use kuberag.Ingestion.{
  read_checkpoint_result, fetch_ingest_result, delete_ingest_objects, fail_ingest, conclude_ingest,
  finalize_ingest, defer_ingest, keep_running, forget_job, finalize, report_gone,
  reconcile_active_job, ingest_failed, ingest_succeeded,
}

-- The object in memory without its active Job.
abbrev pub forgotten : Pass KnowledgeBase → Pass KnowledgeBase
forgotten w = record w {
  object = with_status (λ st. record st { active_job = []; active_job_started_at = none }) w.object;
}

module _ (p : Platform) (s : Server) where
  abbrev conclusion :
      Job → ChunkingSpec → Text → Text → Option IngestResult → M KnowledgeBase Outcome
  conclusion job eff hash secrets_hash result = elim result [
    | none ↦ pure (requeue_after (5 * second))
    | some r ↦ conclude_ingest p s job eff hash secrets_hash r
  ]

  -- The `switch` of `finalize`, on the type of a Job alone.
  abbrev ending : Job → ChunkingSpec → Text → Text → JobType → M KnowledgeBase Outcome
  ending job eff hash secrets_hash type = elim type [
    | ingest ↦
        finalize_ingest p s job (job_effective_chunking job eff) (job_spec_hash job hash)
          (job_secrets_hash job secrets_hash)
    | eval ↦ finalize_eval p s job
    | _ ↦ forget_job p s done
  ]

  -- What follows the read of the active Job.
  abbrev answered : ChunkingSpec → Text → Text → Got Job → M KnowledgeBase (Outcome × Bool)
  answered eff hash secrets_hash got = elim got [
    | refused e ↦ if is_not_found e then report_gone p s else pure (Outcome.failed e, true)
    | found job ↦ do
      out ←
          (if not (is_complete job) && not (is_failed job)
            then keep_running p s job
            else finalize p s job eff hash secrets_hash)
      pure (out, true)
  ]

  forget_job-Keeps :
      (Q : Pass KnowledgeBase → Type 0) (st : IsSteady Q) (out : Outcome) (w : Pass KnowledgeBase)
      → Q (forgotten w)
      → Q (forget_job p s out w).1
  unfolding forget_job
  forget_job-Keeps Q st out w q = update_and_return-Keeps s Q st out _ q

module _ (p : Platform) (s : Server) (Q : Pass KnowledgeBase → Type 0) (loose : IsLoose Q) where
  delete_ingest_objects-Keeps : (job : Text) → Keeps Q (delete_ingest_objects p s job)
  unfolding delete_ingest_objects attempt
  delete_ingest_objects-Keeps job w q =
      let st = loose.steady in
      let kb = w.object in
      st.called (delete_job job) kb _ refl (
        st.called (delete_config_map (checkpoint_config_map_name p job)) kb _ refl (
          st.called (delete_config_map (spec_config_map_name p job)) kb _ refl
            (st.called (delete_config_map (result_config_map_name p job)) kb w.log refl q)))

  fail_ingest-Keeps : (job : Job) (hash : Text) → Keeps Q (fail_ingest p s job hash)
  unfolding fail_ingest read_checkpoint_result fetch_key attempt time_now ingest_failed
      set_condition
  fail_ingest-Keeps job hash w q =
      let st = loose.steady in
      let read =
        st.called (get_config_map (checkpoint_config_map_name p job.name)) w.object w.log refl q in
      let u1 : Pass KnowledgeBase = (read_checkpoint_result p s job.name w).1 in
      let u2 = (clear_worker_config_map_access s p u1).1 in
      let cleared = clear-Keeps s Q (by_calls st) p u1 read in
      let kb =
        ingest_failed p (s.now u2.log) hash (read_checkpoint_result p s job.name w).0 u2.object in
      let told =
        st.called (event true ingestion_failed) kb u2.log refl
          (loose.cleared u2.object kb u2.log refl cleared) in
      let kept = status_update-Keeps s Q st _ told in
      let noted =
        finalize_ingestion_run-Keeps s Q (by_calls st) job.name RunPhase.failed 0 []
          (codes "ingestion job failed") _ kept in
      let gone = delete_ingest_objects-Keeps job.name _ noted in ground arith

  conclude_ingest-Keeps :
      (job : Job) (eff : ChunkingSpec) (hash secrets_hash : Text) (r : IngestResult)
      → Keeps Q (conclude_ingest p s job eff hash secrets_hash r)
  unfolding conclude_ingest attempt time_now ingest_succeeded set_condition
  conclude_ingest-Keeps job eff hash secrets_hash r w q =
      let st = loose.steady in
      let u2 = (clear_worker_config_map_access s p w).1 in
      let cleared = clear-Keeps s Q (by_calls st) p w q in
      let kb = ingest_succeeded p (s.now u2.log) eff hash secrets_hash r u2.object in
      let told =
        st.called (event false ingestion_complete) kb u2.log refl
          (loose.cleared u2.object kb u2.log refl cleared) in
      let kept = status_update-Keeps s Q st _ told in
      let noted =
        finalize_ingestion_run-Keeps s Q (by_calls st) job.name RunPhase.succeeded r.total_chunks
          r.sources [] _ kept in
      let gone = delete_ingest_objects-Keeps job.name _ noted in ground arith

  conclusion-Keeps :
      (job : Job) (eff : ChunkingSpec) (hash secrets_hash : Text) (result : Option IngestResult)
      → Keeps Q (conclusion p s job eff hash secrets_hash result)
  conclusion-Keeps job eff hash secrets_hash none w q = q
  conclusion-Keeps job eff hash secrets_hash (some r) w q =
      conclude_ingest-Keeps job eff hash secrets_hash r w q

  finalize_ingest-Keeps :
      (job : Job) (eff : ChunkingSpec) (hash secrets_hash : Text)
      → Keeps Q (finalize_ingest p s job eff hash secrets_hash)
  unfolding finalize_ingest fetch_ingest_result fetch_key
  finalize_ingest-Keeps job eff hash secrets_hash w q =
      let read =
        loose.steady.called (get_config_map (result_config_map_name p job.name)) w.object w.log refl
          q in
      elim (Bool-cases (is_failed job)) [
        | inl bad ↦ rw (bad, finalize_ingest) (fail_ingest-Keeps job hash w q)
        | inr good ↦
            rw (good, finalize_ingest, ◌>>=◌) (conclusion-Keeps job eff hash secrets_hash _ _ read)
      ]

  forgotten-Keeps : (out : Outcome) → Keeps Q (forget_job p s out)
  forgotten-Keeps out w q =
      forget_job-Keeps p s Q loose.steady out w (loose.cleared w.object _ w.log refl q)

  keep_running-Keeps : (job : Job) → Keeps Q (keep_running p s job)
  unfolding keep_running defer_ingest time_now
  keep_running-Keeps job w q =
      let deferred = update_and_return-Keeps s Q loose.steady (requeue_after (10 * second)) _ (
        loose.steady.changed w.object
          (with_status (λ st. record st { defer_cron_ingest = true }) w.object) w.log refl q) in
      ground arith

  ending-Keeps :
      (job : Job) (eff : ChunkingSpec) (hash secrets_hash : Text) (type : JobType)
      → Keeps Q (ending p s job eff hash secrets_hash type)
  ending-Keeps job eff hash secrets_hash ingest = finalize_ingest-Keeps job _ _ _
  ending-Keeps job eff hash secrets_hash eval = finalize_eval-Keeps p s Q loose job
  ending-Keeps job eff hash secrets_hash JobType.unset = forgotten-Keeps done
  ending-Keeps job eff hash secrets_hash cleanup = forgotten-Keeps done
  ending-Keeps job eff hash secrets_hash JobType.backup = forgotten-Keeps done
  ending-Keeps job eff hash secrets_hash JobType.restore = forgotten-Keeps done

  answered-Keeps :
      (eff : ChunkingSpec) (hash secrets_hash : Text) (got : Got Job)
      → Keeps Q (answered p s eff hash secrets_hash got)
  unfolding report_gone finalize
  answered-Keeps eff hash secrets_hash (refused e) w q =
      let gone = forgotten-Keeps done w q in ground arith
  answered-Keeps eff hash secrets_hash (found job) w q =
      let running = keep_running-Keeps job w q in
      let over = ending-Keeps job eff hash secrets_hash job.labels.job_type w q in
      elim (Bool-cases (is_complete job)) [
        | inl good ↦ rw (good, ◌>>=◌) over
        | inr pending ↦ elim (Bool-cases (is_failed job)) [
          | inl bad ↦ rw (pending, bad, ◌>>=◌) over
          | inr fine ↦ rw (pending, fine, ◌>>=◌) running
        ]
      ]

  pub reconcile_active_job-Keeps :
      (eff : ChunkingSpec) (hash secrets_hash : Text)
      → Keeps Q (reconcile_active_job p s eff hash secrets_hash)
  unfolding reconcile_active_job fetch_job
  reconcile_active_job-Keeps eff hash secrets_hash w q =
      answered-Keeps eff hash secrets_hash _ _
        (loose.steady.called (get_job w.object.status.active_job) w.object w.log refl q)

module _ (p : Platform) (s : Server) where
  answered-handled :
      (eff : ChunkingSpec) (hash secrets_hash : Text) (got : Got Job) (w : Pass KnowledgeBase)
      → (answered p s eff hash secrets_hash got w).0.1 ≡ false
      → (got ≡ refused not_found)
        × ((answered p s eff hash secrets_hash got w).1 ≡ (forget_job p s done w).1)
  unfolding report_gone is_not_found
  answered-handled eff hash secrets_hash (found job) w h = cc
  answered-handled eff hash secrets_hash (refused e) w h = ground (arith, h)

  -- The calls go on to a new Job only where the server does not know the active one.
  pub reconcile_active_job-handled :
      (Q : Pass KnowledgeBase → Type 0) (st : IsSteady Q) (eff : ChunkingSpec)
      (hash secrets_hash : Text) (w : Pass KnowledgeBase)
      → let out = reconcile_active_job p s eff hash secrets_hash w in
        let read = get_job w.object.status.active_job in
        out.0.1 ≡ false
        → (s.ack w.log read ≡ some not_found)
          × (Q (forgotten (record w { log = read ∷ w.log })) → Q out.1)
  unfolding reconcile_active_job fetch_job
  reconcile_active_job-handled Q st eff hash secrets_hash w h =
      let u : Pass KnowledgeBase = record w { log = get_job w.object.status.active_job ∷ w.log } in
      let gone = answered-handled eff hash secrets_hash _ _ h in
      (answer-refused s _ _ gone.0, λ q. subst Q (sym gone.1) (forget_job-Keeps p s Q st done u q))
