-- ===== src/Ingestion/Runs/Success.antt =====
-- The record of a run, by a server that takes all ordinary calls.
use kuberag.Prelude.{Text, ◌≡◌, refl, none, some, [], ◌∷◌, arith}
use kuberag.Api.KnowledgeBase.{KnowledgeBase, ChunkingSpec, IngestMode}
use kuberag.Api.Runs.{IngestionRun, RunPhase}
use kuberag.Cluster.{
  Server, History, Pass, call, attempt, time_now, create_run, update_run_status,
  set_controller_reference,
}
use kuberag.History.{Takes}
use kuberag.Ingestion.Runs.{record_run, start_run, mark_running}

module _ (s : Server) (takes : Takes s) where
  start_run-succeeds : (run : IngestionRun) (w : Pass KnowledgeBase) → (start_run s run w).0 ≡ none
  unfolding start_run mark_running call time_now
  start_run-succeeds run w =
      let c =
        update_run_status run.name
          (record (run.status) { phase = RunPhase.running; start_time = some (s.now w.log) }) in
      ground (arith, takes w.log c refl)

  pub record_run-succeeds :
      (name : Text) (mode : IngestMode) (hash : Text) (eff : ChunkingSpec) (w : Pass KnowledgeBase)
      → (record_run s name mode hash eff w).0 ≡ none
  unfolding record_run attempt call
  record_run-succeeds name mode hash eff w =
      let run : IngestionRun = record {
        name = name;
        knowledge_base = w.object.name;
        creation_timestamp = 0;
        mode = mode;
        spec_hash = hash;
        effective_chunking = eff;
        status = record {
          phase = RunPhase.unset;
          start_time = none;
          completion_time = none;
          total_chunks = 0;
          sources = [];
          error = [];
        };
      } in
      let h : History = set_controller_reference name ∷ w.log in
      rw (takes h (create_run run) refl, record_run) (start_run-succeeds run _)
