-- ===== src/Ingestion/Runs.antt =====
-- IngestionRun objects in internal/controller/ingestion_controller.go: finalizeIngestionRun,
-- pruneIngestionRuns, and the creation of a run in startIngest.
pub mod Prune
pub mod Notes
pub mod Keeps
pub mod Success
use kuberag.Prelude.{if◌then◌else◌, Text, ℕ, Bool, true, false, Option, none, some, List, [], ◌∷◌}
use kuberag.Api.KnowledgeBase.{KnowledgeBase, ChunkingSpec, IngestMode, SourceStatus}
use kuberag.Api.Runs.{IngestionRun, RunPhase}
use kuberag.Cluster.{
  ◌>>=◌, ◌>>◌, Server, list_runs, get_run, create_run, update_run_status, delete_run,
  set_controller_reference, ApiError, M, pure, get, call, attempt, answer, time_now, on_error, Got,
  found, refused, is_already_exists,
}
use Prune.{pruned}

unfoldable pub is_new : RunPhase → Bool
is_new RunPhase.unset = true
is_new _ = false

-- What stops startIngest here: the error of the creation, or that of a later call.
pub data RunError : Type 0 where
  of_creation of_later_call : ApiError → RunError

module _ (s : Server) where
  fetch_run : Text → M KnowledgeBase (Got IngestionRun)
  fetch_run name w = (
    answer s (s.ack w.log (get_run name)) (s.run w.log name),
    record w { log = get_run name ∷ w.log },
  )

  fetch_runs : M KnowledgeBase (Got (List IngestionRun))
  fetch_runs w =
      (answer s (s.ack w.log list_runs) (s.runs w.log), record w { log = list_runs ∷ w.log })

  -- A run that cannot be read, or not be written, is left as it is.
  pub finalize_ingestion_run :
      Text → RunPhase → ℕ → List SourceStatus → Text → M KnowledgeBase (Unit {0})
  unfolding fetch_run
  finalize_ingestion_run name phase chunks sources message = do
    got ← fetch_run name
    elim got [
      | refused e ↦ pure tt
      | found run ↦ do
        now ← time_now s
        attempt s (
            update_run_status name (record (run.status) {
              phase = phase;
              completion_time = some now;
              total_chunks = chunks;
              sources = sources;
              error = message;
            }))
    ]

  delete_runs : List IngestionRun → M KnowledgeBase (Unit {0})
  delete_runs [] = pure tt
  delete_runs (r ∷ rs) = do attempt s (delete_run r.name); delete_runs rs

  pub prune_ingestion_runs : M KnowledgeBase (Unit {0})
  unfolding fetch_runs
  prune_ingestion_runs = do
    got ← fetch_runs
    elim got [ refused e ↦ pure tt | found runs ↦ delete_runs (pruned runs) ]

  mark_running : IngestionRun → M KnowledgeBase (Option ApiError)
  mark_running run = do
    now ← time_now s
    call s (
        update_run_status run.name
          (record (run.status) { phase = RunPhase.running; start_time = some now }))

  -- `if ir.Status.Phase == "" { … }`, then the pruning.
  start_run : IngestionRun → M KnowledgeBase (Option RunError)
  unfolding mark_running
  start_run run = do
    err ← (if is_new run.status.phase then mark_running run else pure none)
    on_error err (λ e. pure (some (of_later_call e))) do prune_ingestion_runs; pure none

  adopt_run : Text → M KnowledgeBase (Option RunError)
  unfolding fetch_run start_run
  adopt_run name = do
    got ← fetch_run name
    elim got [ refused e ↦ pure (some (of_later_call e)) | found run ↦ start_run run ]

  -- The IngestionRun of a new Job, created or found.
  pub record_run : Text → IngestMode → Text → ChunkingSpec → M KnowledgeBase (Option RunError)
  unfolding start_run adopt_run
  record_run name mode hash eff = do
    kb ← get
    let run : IngestionRun = record {
      name = name;
      knowledge_base = kb.name;
      creation_timestamp = 0;
      mode = mode;
      spec_hash = hash;
      effective_chunking = eff;
      status = record {
        phase = RunPhase.unset;
        start_time = none;
        completion_time = none;
        total_chunks = 0;
        sources = [];
        error = [];
      };
    }
    attempt s (set_controller_reference name)
    err ← call s (create_run run)
    on_error err (λ e. if is_already_exists e then adopt_run name else pure (some (of_creation e)))
        (start_run run)
