-- ===== src/Ingestion/Persistence.antt =====
-- finalizeIngest, and what it deletes.
use kuberag.Prelude.{
  Bool-cases, Option-cases, Text, codes, ◌*◌, ◌≡◌, inl, inr, Option, none, some, [], ◌∷◌, arith,
}
use kuberag.Platform.{Platform}
use kuberag.Api.KnowledgeBase.{KnowledgeBase, ChunkingSpec}
use kuberag.Api.Jobs.{Job, IngestResult}
use kuberag.Api.Runs.{RunPhase}
use kuberag.Names.{result_config_map_name, spec_config_map_name, checkpoint_config_map_name}
use kuberag.Cluster.{
  Server, Pass, delete_config_map, delete_job, attempt, fetch_key, time_now, M, pure, Outcome,
  requeue_after, second, ◌>>=◌, ◌>>◌, on_error, fails,
}
use kuberag.History.{deletions, SafeEnd, Adds}
use kuberag.Status.{status_update}
use kuberag.Status.Saving.{status_update-Saves, status_update-stored}
use kuberag.Identity.Calls.{clear-Quiet}
use kuberag.Decisions.{is_failed}
use kuberag.Evaluation.Persistence.{SafeEnd-from}
use kuberag.Ingestion.Runs.Notes.{finalize_ingestion_run-Adds}
use kuberag.Ingestion.{
  read_checkpoint_result, fetch_ingest_result, delete_ingest_objects, fail_ingest, conclude_ingest,
  finalize_ingest,
}

module _ (p : Platform) (s : Server) where
  -- The end that both branches share: save, note the run, and clean up.
  abbrev save_and_clean : Text → M KnowledgeBase (Unit {0}) → Outcome → M KnowledgeBase Outcome
  save_and_clean job note out = do
    err ← status_update s
    on_error err fails do note; delete_ingest_objects p s job; pure out

  save_and_clean-SafeEnd :
      (job : Text) (note : M KnowledgeBase (Unit {0})) (out : Outcome)
      (adds : (w : Pass KnowledgeBase) → Adds w (note w).1) (w : Pass KnowledgeBase)
      → SafeEnd s w (save_and_clean job note out w).1
  unfolding delete_ingest_objects attempt
  save_and_clean-SafeEnd job note out adds w =
      let after = status_update s w in
      let law = status_update-Saves s w in
      let noted = adds after.1 in
      elim (Option-cases after.0) [
        | inr (x, e) ↦ rw (e, save_and_clean, ◌>>=◌) (inl law.quiet.no_deletions)
        | inl e ↦
            rw (e, save_and_clean, ◌>>=◌)
              (inr (record {
                saved_at = after.1.log;
                later =
                    delete_job job
                    ∷ delete_config_map (checkpoint_config_map_name p job)
                    ∷ delete_config_map (spec_config_map_name p job)
                    ∷ delete_config_map (result_config_map_name p job)
                    ∷ noted.calls;
                split = rw noted.split;
                kept = law.quiet.no_deletions;
                saved = rw noted.same_object (status_update-stored s w e);
              }))
      ]

  fetch-deletions :
      (job : Text) (w : Pass KnowledgeBase)
      → deletions (fetch_ingest_result p s job w).1.log ≡ deletions w.log
  unfolding fetch_ingest_result fetch_key
  fetch-deletions job w = omega arith

  checkpoint-deletions :
      (job : Text) (w : Pass KnowledgeBase)
      → deletions (read_checkpoint_result p s job w).1.log ≡ deletions w.log
  unfolding read_checkpoint_result fetch_key
  checkpoint-deletions job w = omega arith

  fail_ingest-SafeEnd :
      (job : Job) (hash : Text) (w : Pass KnowledgeBase)
      → SafeEnd s w (fail_ingest p s job hash w).1
  unfolding fail_ingest attempt time_now
  fail_ingest-SafeEnd job hash w =
      let u = (read_checkpoint_result p s job.name w).1 in
      SafeEnd-from s
        (omega (arith, checkpoint-deletions job.name w, (clear-Quiet s p u).no_deletions))
        (save_and_clean-SafeEnd job.name _ _
          (finalize_ingestion_run-Adds s job.name RunPhase.failed 0 []
            (codes "ingestion job failed"))
          _)

  conclude_ingest-SafeEnd :
      (job : Job) (eff : ChunkingSpec) (hash secrets : Text) (r : IngestResult)
      (w : Pass KnowledgeBase)
      → SafeEnd s w (conclude_ingest p s job eff hash secrets r w).1
  unfolding conclude_ingest attempt time_now
  conclude_ingest-SafeEnd job eff hash secrets r w =
      SafeEnd-from s (omega (arith, (clear-Quiet s p w).no_deletions)) (
        save_and_clean-SafeEnd job.name _ _
          (finalize_ingestion_run-Adds s job.name RunPhase.succeeded r.total_chunks r.sources []) _)

  abbrev conclusion :
      Job → ChunkingSpec → Text → Text → Option IngestResult → M KnowledgeBase Outcome
  conclusion job eff hash secrets result = elim result [
    | none ↦ pure (requeue_after (5 * second))
    | some r ↦ conclude_ingest p s job eff hash secrets r
  ]

  fetched :
      (job : Job) (eff : ChunkingSpec) (hash secrets : Text) (w : Pass KnowledgeBase)
      → let r = fetch_ingest_result p s job.name w in
        SafeEnd s w (conclusion job eff hash secrets r.0 r.1).1
  fetched job eff hash secrets w =
      let u = (fetch_ingest_result p s job.name w).1 in
      elim (Option-cases (fetch_ingest_result p s job.name w).0) [
        | inl e ↦ rw (e, conclusion) (inl (fetch-deletions job.name w))
        | inr (r, e) ↦
            rw (e, conclusion)
              (SafeEnd-from s (fetch-deletions job.name w)
                (conclude_ingest-SafeEnd job eff hash secrets r u))
      ]

  -- Whatever the server answers, finalizeIngest deletes nothing, or the very status that it ends
  -- with had been taken by the server at a point of the pass where nothing had been deleted.
  pub finalize_ingest-SafeEnd :
      (job : Job) (eff : ChunkingSpec) (hash secrets : Text) (w : Pass KnowledgeBase)
      → SafeEnd s w (finalize_ingest p s job eff hash secrets w).1
  unfolding finalize_ingest
  finalize_ingest-SafeEnd job eff hash secrets w = elim (Bool-cases (is_failed job)) [
    | inl e ↦ rw (e, finalize_ingest) (fail_ingest-SafeEnd job hash w)
    | inr e ↦ rw (e, finalize_ingest, ◌>>=◌) (fetched job eff hash secrets w)
  ]
