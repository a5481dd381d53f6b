-- ===== src/Ingestion/Runs/Notes.antt =====
-- The calls of finalizeIngestionRun.
use kuberag.Prelude.{Option-cases, Text, ℕ, refl, inl, inr, List, [], ◌∷◌}
use kuberag.Api.KnowledgeBase.{KnowledgeBase, SourceStatus}
use kuberag.Api.Runs.{RunPhase}
use kuberag.Cluster.{Server, Pass, get_run, update_run_status, attempt, time_now, ◌>>=◌, ◌>>◌}
use kuberag.History.{Adds}
use kuberag.Ingestion.Runs.{finalize_ingestion_run}

module _ (s : Server) where
  pub finalize_ingestion_run-Adds :
      (name : Text) (phase : RunPhase) (n : ℕ) (srcs : List SourceStatus) (msg : Text)
      (w : Pass KnowledgeBase)
      → Adds w (finalize_ingestion_run s name phase n srcs msg w).1
  unfolding finalize_ingestion_run time_now attempt
  finalize_ingestion_run-Adds name phase n srcs msg w =
      elim (Option-cases (s.ack w.log (get_run name))) [
        | inl e ↦
            rw (e, finalize_ingestion_run, ◌>>=◌, ◌>>◌)
              (record {
                calls = update_run_status name _ ∷ get_run name ∷ [];
                split = refl;
                same_object = refl;
              })
        | inr (x, e) ↦
            rw (e, finalize_ingestion_run, ◌>>=◌, ◌>>◌)
              (record { calls = get_run name ∷ []; split = refl; same_object = refl })
      ]
