-- ===== src/Ingestion/Conclusion.antt =====
-- An ingestion that succeeded, against a server that refuses nothing.
use kuberag.Prelude.{Text, codes, ◌≡◌, refl, sym, ap, ◌∙◌, true, false, none, some, [], ◌∷◌}
use mathlib.Core.Path.{subst}
use kuberag.Platform.{Platform}
use kuberag.Names.{result_config_map_name}
use kuberag.Api.KnowledgeBase.{KnowledgeBase, ChunkingSpec, Phase, ingestion_complete}
use kuberag.Api.Jobs.{Job, IngestResult, ingest}
use kuberag.Api.Runs.{RunPhase}
use kuberag.Labels.{job_spec_hash, job_secrets_hash}
use kuberag.Cluster.{
  ◌>>=◌, Server, History, Call, Pass, attempt, time_now, fetch_key, fetch_job, get_job,
  get_config_map, delete_job, update_status, event, Outcome, requeue, on_error,
}
use kuberag.History.{Accepted}
use kuberag.History.Keeps.{by_calls, Accepted-IsSteady}
use kuberag.History.Launches.{active}
use kuberag.Status.{status_update, set_condition}
use kuberag.Status.Saving.{status_update-Saves}
use kuberag.Status.Success.{status_update-succeeds}
use kuberag.Identity.{clear_worker_config_map_access}
use kuberag.Decisions.{is_complete, is_failed}
use kuberag.Ingestion.Runs.{finalize_ingestion_run}
use kuberag.Ingestion.Runs.Keeps.{finalize_ingestion_run-Keeps}
use kuberag.Ingestion.Runs.Notes.{finalize_ingestion_run-Adds}
use kuberag.Ingestion.{
  fetch_ingest_result, delete_ingest_objects, conclude_ingest, finalize_ingest, finalize,
  reconcile_active_job, ingest_succeeded,
}

-- A pass that ends with an ingestion concluded: the KnowledgeBase is ready, with the chunks of the result
-- and the hash of the Job on record and no active Job, in a status that the server took, the deletion of
-- the Job was taken, and the next pass follows at once.
pub record Settles (s : Server) (job hash : Text) (r : IngestResult)
    (end : Outcome × Pass KnowledgeBase) : Type 0 where
  pub result : end.0 ≡ requeue
  pub phase : end.1.object.status.phase ≡ Phase.ready
  pub idle : active end.1 ≡ []
  pub indexed : end.1.object.status.observed_spec_hash ≡ hash
  pub chunks : end.1.object.status.indexed_chunks ≡ r.total_chunks
  pub sources : end.1.object.status.sources ≡ r.sources
  pub stored : Accepted s (update_status end.1.object.status) end.1.log
  pub deleted : Accepted s (delete_job job) end.1.log

-- The server has an ingestion Job that is complete and did not fail, with its result.
pub record HasSucceeded (p : Platform) (s : Server) (j : Job) (r : IngestResult) : Type 0 where
  pub known : (h : History) → s.job h j.name ≡ j
  pub type : j.labels.job_type ≡ ingest
  pub complete : is_complete j ≡ true
  pub unfailed : is_failed j ≡ false
  pub text : Text
  pub read :
      (h : History)
      → s.config_map h (result_config_map_name p j.name) (codes "result.json") ≡ some text
  pub parsed : p.ingest_result text ≡ some r

module _ (p : Platform) (s : Server) (taking : (h : History) (c : Call) → s.ack h c ≡ none) where
  conclude_ingest-Settles :
      (job : Job) (eff : ChunkingSpec) (hash secrets_hash : Text) (r : IngestResult)
      (w : Pass KnowledgeBase)
      → Settles s job.name hash r (conclude_ingest p s job eff hash secrets_hash r w)
  unfolding conclude_ingest attempt time_now ingest_succeeded set_condition delete_ingest_objects
  conclude_ingest-Settles job eff hash secrets_hash r w =
      let u = (clear_worker_config_map_access s p w).1 in
      let kb = ingest_succeeded p (s.now u.log) eff hash secrets_hash r u.object in
      let v : Pass KnowledgeBase = record {
        object = kb;
        log = event false ingestion_complete ∷ u.log;
      } in
      let good = status_update-succeeds s taking v in
      let law = status_update-Saves s v in
      let x = (status_update s v).1 in
      let y =
        (finalize_ingestion_run s job.name RunPhase.succeeded r.total_chunks r.sources [] x).1 in
      let same : y.object ≡ kb =
        (finalize_ingestion_run-Adds s job.name RunPhase.succeeded r.total_chunks r.sources []
          x).same_object
        ∙ law.quiet.same_object in
      let st = Accepted-IsSteady s (update_status kb.status) in
      let kept : Accepted s (update_status kb.status) y.log =
        finalize_ingestion_run-Keeps s _ (by_calls st) job.name RunPhase.succeeded r.total_chunks
          r.sources [] x (law.stored good) in
      let kept' : Accepted s (update_status y.object.status) y.log =
        subst (λ o. Accepted s (update_status o.status) y.log) (sym same) kept in
      rw (good, on_error)
        (record {
          result = refl;
          phase = ap (λ o. o.status.phase) same;
          idle = ap (λ o. o.status.active_job) same;
          indexed = ap (λ o. o.status.observed_spec_hash) same;
          chunks = ap (λ o. o.status.indexed_chunks) same;
          sources = ap (λ o. o.status.sources) same;
          stored = Accepted.there (Accepted.there (Accepted.there (Accepted.there kept')));
          deleted = Accepted.here (taking _ _);
        })

  fetch_ingest_result-reads :
      (j : Job) (r : IngestResult) (w : Pass KnowledgeBase)
      → HasSucceeded p s j r
      → (fetch_ingest_result p s j.name w).0 ≡ some r
  unfolding fetch_ingest_result fetch_key
  fetch_ingest_result-reads j r w over =
      rw
        (
          taking w.log (get_config_map (result_config_map_name p j.name)),
          over.read w.log,
          over.parsed,
        )
        refl

  finalize_ingest-Settles :
      (j : Job) (eff : ChunkingSpec) (hash secrets_hash : Text) (r : IngestResult)
      (w : Pass KnowledgeBase)
      → HasSucceeded p s j r
      → Settles s j.name hash r (finalize_ingest p s j eff hash secrets_hash w)
  unfolding finalize_ingest
  finalize_ingest-Settles j eff hash secrets_hash r w over =
      rw (over.unfailed, fetch_ingest_result-reads j r w over, finalize_ingest, ◌>>=◌)
        (conclude_ingest-Settles j eff hash secrets_hash r (fetch_ingest_result p s j.name w).1)

  finalize-Settles :
      (j : Job) (eff : ChunkingSpec) (hash secrets_hash : Text) (r : IngestResult)
      (w : Pass KnowledgeBase)
      → HasSucceeded p s j r
      → Settles s j.name (job_spec_hash j hash) r (finalize p s j eff hash secrets_hash w)
  unfolding finalize job_spec_hash job_secrets_hash
  finalize-Settles j eff hash secrets_hash r w over =
      rw (over.type, finalize) (finalize_ingest-Settles j _ _ _ r w over)

  pub reconcile_active_job-Settles :
      (j : Job) (eff : ChunkingSpec) (hash secrets_hash : Text) (r : IngestResult)
      (w : Pass KnowledgeBase)
      → HasSucceeded p s j r
      → w.object.status.active_job ≡ j.name
      → let out = reconcile_active_job p s eff hash secrets_hash w in
        (out.0.1 ≡ true) × Settles s j.name (job_spec_hash j hash) r (out.0.0, out.1)
  unfolding reconcile_active_job fetch_job
  reconcile_active_job-Settles j eff hash secrets_hash r w over busy =
      let read = get_job w.object.status.active_job in
      let seen : s.job w.log w.object.status.active_job ≡ j =
        ap (s.job w.log) busy ∙ over.known w.log in
      rw (taking w.log read, seen, over.complete, reconcile_active_job, ◌>>=◌)
        (refl, finalize-Settles j eff hash secrets_hash r (record w { log = read ∷ w.log }) over)
