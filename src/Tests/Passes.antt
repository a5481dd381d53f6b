-- ===== src/Tests/Passes.antt =====
-- Passes over concrete objects.
use kuberag.Prelude.{codes, ◌+◌, ◌-◌, ◌≤◌, ◌≡◌, refl, true, none, [], ◌∷◌, arith}
use kuberag.Api.KnowledgeBase.{KnowledgeBase}
use kuberag.Cluster.{Pass}
use kuberag.History.{deletions, jobs_created, SafeEnd}
use kuberag.Evaluation.{finalize_eval}
use kuberag.Evaluation.Persistence.{finalize_eval-SafeEnd}
use kuberag.Ingestion.{finalize_ingest}
use kuberag.Ingestion.Persistence.{finalize_ingest-SafeEnd}
use kuberag.Reconcile.{reconcile}
use kuberag.Reconcile.Idle.{reconcile-Idles}
use kuberag.Tuning.{Round, tuning}
use kuberag.Tuning.Ends.{Degraded, tuning_ends}
use kuberag.Evaluation.Verdicts.{IsBelow}
use kuberag.AutoTune.{auto_tune_enabled, auto_tune_max}
use kuberag.Fixtures.{
  platform, server, pass, job, kb, chunking, quality, eval_result, ingest_result,
}

finalize_ingest-SafeEnd_example :
    SafeEnd server pass
      (finalize_ingest platform server job chunking (codes "aaaa") (codes "bbbb") pass).1
finalize_ingest-SafeEnd_example =
    finalize_ingest-SafeEnd platform server job chunking (codes "aaaa") (codes "bbbb") pass

finalize_eval-SafeEnd_example : SafeEnd server pass (finalize_eval platform server job pass).1
finalize_eval-SafeEnd_example = finalize_eval-SafeEnd platform server job pass

abbrev unmeasured : Pass KnowledgeBase
unmeasured = record pass {
  object = record kb { spec = record (kb.spec) { retrieval_quality = none } };
}

abbrev paused : Pass KnowledgeBase
paused = record pass { object = record kb { spec = record (kb.spec) { suspend = true } } }

reconcile-Idles_example :
    (deletions (reconcile platform server paused).1.log ≡ 0)
    × (jobs_created (reconcile platform server paused).1.log ≡ 0)
reconcile-Idles_example = reconcile-Idles platform server paused refl refl

abbrev round : Round
round = record {
  evaluated_at = 100;
  indexed_at = 200;
  evaluation = eval_result;
  ingestion = ingest_result;
}

quality_tunes : auto_tune_enabled quality ≡ true
unfolding auto_tune_enabled
quality_tunes = refl

misses_goal : IsBelow quality eval_result
misses_goal = record { has_queries = omega arith; misses = omega arith }

enough_rounds : auto_tune_max quality - 0 + 2 ≤ 4
unfolding auto_tune_max
enough_rounds = omega arith

-- Two attempts, a round on the best chunking, and one that ends the loop.
tuning_ends_example : Degraded (tuning platform kb (round ∷ round ∷ round ∷ round ∷ []))
tuning_ends_example =
    tuning_ends platform quality quality_tunes kb (round ∷ round ∷ round ∷ round ∷ []) refl
      (misses_goal, (misses_goal, (misses_goal, (misses_goal, tt)))) enough_rounds
