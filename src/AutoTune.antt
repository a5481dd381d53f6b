-- ===== src/AutoTune.antt =====
-- The auto-tune helpers of internal/controller/decision_helpers.go. They change the KnowledgeBase in
-- memory; the histogram that recordAutoTuneDuration feeds is not modelled.
use kuberag.Prelude.{ltb, ◌==◌, if◌then◌else◌, ℕ, ◌+◌, Bool, true, false, Option, none, some}
use kuberag.Api.KnowledgeBase.{
  KnowledgeBase, RetrievalQualitySpec, AutoTuneSpec, Time, ChunkingSpec,
}
use kuberag.Chunking.{effective_chunking, next_chunking, chunking_eq}
use kuberag.Status.{with_status}

unfoldable pub apply_auto_tune : Time → KnowledgeBase → KnowledgeBase
apply_auto_tune now kb =
    let eff = next_chunking (effective_chunking kb) in
    with_status
      (λ st. record st {
        effective_chunking = some eff;
        auto_tune_attempts = st.auto_tune_attempts + 1;
        auto_tune_started_at = elim st.auto_tune_started_at [ none ↦ some now | some t ↦ some t ];
        pending_retune = true;
        evaluation = none;
      })
      kb

-- `kb.Status.BestChunking == nil || recall > kb.Status.BestRecallPercent`
beats_best : Option ChunkingSpec → ℕ → ℕ → Bool
beats_best none best recall = true
beats_best (some c) best recall = ltb best recall

unfoldable pub record_best : ℕ → KnowledgeBase → KnowledgeBase
unfolding beats_best
record_best recall kb =
    if beats_best kb.status.best_chunking kb.status.best_recall_percent recall
    then with_status
        (λ st. record st {
          best_chunking = some (effective_chunking kb);
          best_recall_percent = recall;
        })
        kb
    else kb

revert_to : ChunkingSpec → KnowledgeBase → KnowledgeBase
revert_to best kb =
    with_status
      (λ st. record st { effective_chunking = some best; pending_retune = true; evaluation = none })
      kb

unfoldable pub settle_on_best : KnowledgeBase → KnowledgeBase × Bool
unfolding revert_to
settle_on_best kb = elim kb.status.best_chunking [
  | none ↦ (kb, false)
  | some best ↦
      if chunking_eq (effective_chunking kb) best then (kb, false) else (revert_to best kb, true)
]

-- `rq.AutoTune != nil && rq.AutoTune.Enabled != nil && *rq.AutoTune.Enabled`
enabled : Option AutoTuneSpec → Bool
enabled none = false
enabled (some tune) = elim tune.enabled [ none ↦ false | some b ↦ b ]

unfoldable pub auto_tune_enabled : RetrievalQualitySpec → Bool
unfolding enabled
auto_tune_enabled rq = enabled rq.auto_tune

unfoldable pub auto_tune_max : RetrievalQualitySpec → ℕ
auto_tune_max rq = elim rq.auto_tune [
  | none ↦ 3
  | some tune ↦ if tune.max_attempts == 0 then 3 else tune.max_attempts
]

-- A start that is nil or the zero time is left as it is.
unfoldable pub record_auto_tune_duration : KnowledgeBase → KnowledgeBase
record_auto_tune_duration kb =
    with_status
      (λ st. record st {
        auto_tune_started_at = elim st.auto_tune_started_at [
          | none ↦ none
          | some t ↦ if t == 0 then some t else none
        ];
      })
      kb
