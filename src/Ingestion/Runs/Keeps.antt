-- ===== src/Ingestion/Runs/Keeps.antt =====
-- What the writes of IngestionRun objects keep.
use kuberag.Prelude.{Option-cases, Text, ℕ, refl, inl, inr, none, some, List, [], ◌∷◌, arith}
use kuberag.Api.KnowledgeBase.{KnowledgeBase, ChunkingSpec, IngestMode, SourceStatus}
use kuberag.Api.Runs.{IngestionRun, RunPhase}
use kuberag.Cluster.{
  ◌>>=◌, ◌>>◌, Server, Pass, call, attempt, time_now, get_run, list_runs, create_run,
  update_run_status, delete_run, set_controller_reference,
}
use kuberag.History.Keeps.{Keeps, IsCalled}
use kuberag.Ingestion.Runs.{
  finalize_ingestion_run, record_run, delete_runs, prune_ingestion_runs, mark_running, start_run,
  adopt_run, fetch_run,
}
use kuberag.Ingestion.Runs.Prune.{pruned}

module _ (s : Server) (Q : Pass KnowledgeBase → Type 0) (st : IsCalled Q) where
  pub finalize_ingestion_run-Keeps :
      (name : Text) (phase : RunPhase) (n : ℕ) (srcs : List SourceStatus) (msg : Text)
      → Keeps Q (finalize_ingestion_run s name phase n srcs msg)
  unfolding finalize_ingestion_run attempt time_now
  finalize_ingestion_run-Keeps name phase n srcs msg w q =
      let read = st.called (get_run name) w.object w.log refl q in
      let wrote = λ (rs : _). st.called (update_run_status name rs) w.object _ refl read in
      elim (Option-cases (s.ack w.log (get_run name))) [
        | inl e ↦ rw (e, finalize_ingestion_run, ◌>>=◌, ◌>>◌) (wrote _)
        | inr (x, e) ↦ rw (e, finalize_ingestion_run, ◌>>=◌, ◌>>◌) read
      ]

  delete_runs-Keeps : (rs : List IngestionRun) → Keeps Q (delete_runs s rs)
  unfolding delete_runs attempt
  delete_runs-Keeps [] w q = q
  delete_runs-Keeps (r ∷ rs) w q =
      delete_runs-Keeps rs _ (st.called (delete_run r.name) w.object w.log refl q)

  prune-Keeps : Keeps Q (prune_ingestion_runs s)
  unfolding prune_ingestion_runs
  prune-Keeps w q =
      let read = st.called list_runs w.object w.log refl q in
      let gone = delete_runs-Keeps (pruned (s.runs w.log)) _ read in
      elim (Option-cases (s.ack w.log list_runs)) [
        | inl e ↦ rw (e, prune_ingestion_runs, ◌>>=◌) gone
        | inr (x, e) ↦ rw (e, prune_ingestion_runs, ◌>>=◌) read
      ]

  start_run-Keeps : (run : IngestionRun) → Keeps Q (start_run s run)
  unfolding start_run mark_running call time_now
  start_run-Keeps run w q =
      let c =
        update_run_status run.name
          (record (run.status) { phase = RunPhase.running; start_time = some (s.now w.log) }) in
      let marked = st.called c w.object w.log refl q in
      let pruned_marked = prune-Keeps _ marked in let pruned_only = prune-Keeps w q in ground arith

  adopt_run-Keeps : (name : Text) → Keeps Q (adopt_run s name)
  unfolding adopt_run fetch_run
  adopt_run-Keeps name w q =
      let read = st.called (get_run name) w.object w.log refl q in
      let go = start_run-Keeps (s.run w.log name) _ read in
      elim (Option-cases (s.ack w.log (get_run name))) [
        | inl e ↦ rw (e, adopt_run, ◌>>=◌) go
        | inr (x, e) ↦ rw (e, adopt_run, ◌>>=◌) read
      ]

  pub record_run-Keeps :
      (name : Text) (mode : IngestMode) (hash : Text) (eff : ChunkingSpec)
      → Keeps Q (record_run s name mode hash eff)
  unfolding record_run attempt call
  record_run-Keeps name mode hash eff w q =
      let run : IngestionRun = record {
        name = name;
        knowledge_base = w.object.name;
        creation_timestamp = 0;
        mode = mode;
        spec_hash = hash;
        effective_chunking = eff;
        status = record {
          phase = RunPhase.unset;
          start_time = none;
          completion_time = none;
          total_chunks = 0;
          sources = [];
          error = [];
        };
      } in
      let owned = st.called (set_controller_reference name) w.object w.log refl q in
      let created = st.called (create_run run) w.object _ refl owned in
      let adopted = adopt_run-Keeps name _ created in
      let started = start_run-Keeps run _ created in ground arith
