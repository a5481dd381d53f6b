-- ===== src/Tests/Decisions.antt =====
-- Decisions, waits and the ladder.
use kuberag.Prelude.{
  text_eq, codes, ◌+◌, ◌*◌, ◌≤◌, ◌<◌, ◌≡◌, refl, ◌≢◌, true, false, none, some, [], ◌∷◌, arith,
}
use kuberag.Platform.{Platform}
use kuberag.Api.KnowledgeBase.{KnowledgeBase, Time, full, incremental}
use kuberag.Cluster.{second}
use kuberag.Status.{with_status}
use kuberag.Chunking.{effective_chunking, spec_chunking, next_chunking}
use kuberag.Schedule.{requeue_for, cron_due, min_wait, max_wait}
use kuberag.Schedule.Waits.{requeue_for_bounds, Among, Wakes, Rests, AllPast}
use kuberag.Decisions.{
  user_edited_spec, IngestReason, needs_ingest, deferred, ingest_failure_retry_after,
  ingest_failure_retry_delay,
}
use kuberag.Evaluation.{judge}
use kuberag.Evaluation.Verdicts.{judge-best}
use kuberag.Ingestion.{ingest_succeeded, ingest_failed, mode_for}
use kuberag.Ingestion.Outcomes.{
  ingest_succeeded-settles, ingest_failed-backs_off, deferred_masks_spec_change,
}
use kuberag.Reconcile.{drop_override}
use kuberag.Reconcile.Edits.{drop_override-full}
use kuberag.Fixtures.{platform, kb, chunking, quality, eval_result, ingest_result}

requeue_for_bounds_example :
    let times = 200 * second ∷ 0 ∷ [] in
    let wait = requeue_for (100 * second) (101 * second) times in
    (min_wait ≤ wait)
    × (wait ≤ max_wait)
    × ((t : Time) → Among t times → 100 * second < t → Wakes (101 * second) t wait)
    × (AllPast (100 * second) times → Rests (100 * second) (101 * second) wait)
requeue_for_bounds_example =
    requeue_for_bounds (100 * second) (101 * second) (200 * second ∷ 0 ∷ []) (omega arith)

abbrev never : Time → Time
never t = 0

abbrev leap_day : Platform
leap_day = record platform { cron_parse = λ t. some never }

due_on_no_day : cron_due leap_day (codes "0 0 30 2 *") (90 * second) (100 * second) ≡ true
unfolding cron_due
due_on_no_day = refl

judge-best_example :
    let st = (judge platform 100 eval_result kb).0.status in
    (st.best_chunking ≢ none)
    × (70 ≤ st.best_recall_percent)
    × (kb.status.best_chunking ≢ none → 0 ≤ st.best_recall_percent)
judge-best_example =
    judge-best platform 100 eval_result kb quality refl
      (record { has_queries = omega arith; misses = omega arith })

unscheduled : cron_due platform [] 100 200 ≡ false
unfolding cron_due
unscheduled = refl

ingest_succeeded-settles_example :
    needs_ingest platform
      (ingest_succeeded platform 100 chunking (codes "cccc") (codes "bbbb") ingest_result kb)
      (codes "cccc")
      200
    ≡ none
ingest_succeeded-settles_example =
    ingest_succeeded-settles platform 100 200 chunking (codes "cccc") (codes "bbbb") ingest_result
      kb refl unscheduled

ingest_failed-backs_off_example :
    let failed = ingest_failed platform (100 * second) (codes "cccc") [] kb in
    let wait = ingest_failure_retry_after failed (codes "cccc") (110 * second) in
    (codes "cccc" ≡ codes "cccc"
      → 110 * second < 100 * second + ingest_failure_retry_delay
      → 110 * second + wait ≡ 100 * second + ingest_failure_retry_delay)
    × (100 * second + ingest_failure_retry_delay ≤ 110 * second → wait ≡ 0)
    × (codes "cccc" ≢ codes "cccc" → wait ≡ 0)
ingest_failed-backs_off_example =
    ingest_failed-backs_off platform (100 * second) (110 * second) (codes "cccc") (codes "cccc") []
      kb

abbrev noted : KnowledgeBase
noted = with_status (λ st. record st { defer_cron_ingest = true }) kb

deferred_masks_spec_change_example :
    (needs_ingest platform noted (codes "cccc") 200 ≡ some deferred)
    × (mode_for noted deferred ≡ incremental)
    × (needs_ingest platform
          (ingest_succeeded platform 100 chunking
            (codes "cccc")
            (codes "bbbb")
            ingest_result
            (with_status (λ st. record st { defer_cron_ingest = false }) noted))
          (codes "cccc")
          200
        ≡ none)
deferred_masks_spec_change_example =
    deferred_masks_spec_change platform 100 200 chunking (codes "cccc") (codes "bbbb") ingest_result
      noted refl refl (λ e. absurd (ground arith)) refl (λ e. absurd (ground arith)) unscheduled

-- A chunking that was tuned, and a spec that was edited since.
abbrev tuned_kb : KnowledgeBase
tuned_kb = with_status (λ st. record st { effective_chunking = some (next_chunking chunking) }) kb

edited_spec : user_edited_spec tuned_kb (codes "cccc") ≡ true
unfolding user_edited_spec text_eq
edited_spec = refl

drop_override-full_example :
    let kb' = drop_override (codes "cccc") tuned_kb in
    (effective_chunking kb' ≡ spec_chunking tuned_kb)
    × (kb'.status.auto_tune_attempts ≡ 0)
    × (kb'.status.best_chunking ≡ none)
    × ((reason : IngestReason) × (needs_ingest platform kb' (codes "cccc") 200 ≡ some reason)
        × (mode_for kb' reason ≡ full))
drop_override-full_example =
    drop_override-full platform tuned_kb (codes "cccc") 200 edited_spec refl
