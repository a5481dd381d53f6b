-- ===== src/Tuning/Ends.antt =====
-- How the auto-tune loop goes on.
use kuberag.Prelude.{
  ltb, ltb→lt, Bool-cases, Option-cases, length, ◌+◌, ◌-◌, ◌≤◌, ◌≡◌, refl, ap, ◌∙◌, ◌≢◌, inl, inr,
  true, Option, none, some, List, [], ◌∷◌, arith,
}
use kuberag.Platform.{Platform}
use kuberag.Api.KnowledgeBase.{KnowledgeBase, ChunkingSpec, RetrievalQualitySpec, Phase}
use kuberag.Chunking.{effective_chunking}
use kuberag.Status.{set_condition}
use kuberag.AutoTune.{auto_tune_enabled, auto_tune_max}
use kuberag.Evaluation.{Verdict, below, judge}
use kuberag.Evaluation.Verdicts.{IsBelow, judge-tuned, judge-exhausted, judge-settled, judge-below}
use kuberag.Ingestion.{ingest_succeeded}
use kuberag.Tuning.{retunes, Round, reindex, tuning}

abbrev pub AllBelow : RetrievalQualitySpec → List Round → Type 0
AllBelow rq [] = Unit
AllBelow rq (r ∷ rs) = IsBelow rq r.evaluation × AllBelow rq rs

-- A re-index keeps the spec and the auto-tune state, and fixes the effective chunking.
reindex-keeps :
    (p : Platform) (r : Round) (kb : KnowledgeBase)
    → ((reindex p r kb).spec ≡ kb.spec)
      × ((reindex p r kb).status.auto_tune_attempts ≡ kb.status.auto_tune_attempts)
      × ((reindex p r kb).status.best_chunking ≡ kb.status.best_chunking)
      × ((reindex p r kb).status.effective_chunking ≡ some (effective_chunking kb))
unfolding reindex ingest_succeeded set_condition
reindex-keeps p r kb = (refl, refl, refl, refl)

effective_chunking-some :
    (kb : KnowledgeBase) (c : ChunkingSpec)
    → kb.status.effective_chunking ≡ some c
    → effective_chunking kb ≡ c
unfolding effective_chunking
effective_chunking-some kb c e = rw (e, effective_chunking)

-- How the loop ends.
abbrev pub Degraded : KnowledgeBase × Option Verdict → Type 0
Degraded out =
    (out.1 ≡ some below)
    × (out.0.status.phase ≡ Phase.degraded)
    × (out.0.status.best_chunking ≡ some (effective_chunking out.0))

module _ (p : Platform) (rq : RetrievalQualitySpec) (on : auto_tune_enabled rq ≡ true) where
  stop :
      (kb : KnowledgeBase) (r : Round) (rs : List Round)
      → kb.spec.retrieval_quality ≡ some rq
      → IsBelow rq r.evaluation
      → (judge p r.evaluated_at r.evaluation kb).1 ≡ below
      → Degraded (tuning p kb (r ∷ rs))
  unfolding tuning
  stop kb r rs asked short v =
      let end = judge-below p r.evaluated_at r.evaluation kb rq asked short on v in
      rw v (refl, end.0, end.1)

  go_on :
      (kb : KnowledgeBase) (r : Round) (rs : List Round)
      → retunes (judge p r.evaluated_at r.evaluation kb).1 ≡ true
      → Degraded (tuning p (reindex p r (judge p r.evaluated_at r.evaluation kb).0) rs)
      → Degraded (tuning p kb (r ∷ rs))
  unfolding tuning
  go_on kb r rs again rest = rw again rest

  -- The last round, on the chunking that was settled on.
  settled_ends :
      (kb : KnowledgeBase) (c : ChunkingSpec) (rs : List Round)
      → kb.spec.retrieval_quality ≡ some rq
      → auto_tune_max rq ≤ kb.status.auto_tune_attempts
      → kb.status.best_chunking ≡ some c
      → kb.status.effective_chunking ≡ some c
      → AllBelow rq rs
      → 1 ≤ length rs
      → Degraded (tuning p kb rs)
  settled_ends kb c [] asked spent best eff short long = absurd (omega arith)
  settled_ends kb c (r ∷ rs) asked spent best eff short long =
      stop kb r rs asked short.0
        (judge-settled p r.evaluated_at r.evaluation kb rq asked short.0 on c spent best eff)

  settles :
      (kb : KnowledgeBase) (r : Round) (rs : List Round)
      → let kb' = (judge p r.evaluated_at r.evaluation kb).0 in
        kb'.spec.retrieval_quality ≡ some rq
        → auto_tune_max rq ≤ kb'.status.auto_tune_attempts
        → kb'.status.best_chunking ≡ kb'.status.effective_chunking
        → kb'.status.effective_chunking ≢ none
        → AllBelow rq rs
        → 1 ≤ length rs
        → Degraded (tuning p (reindex p r kb') rs)
  settles kb r rs asked spent best eff short long =
      let kb' = (judge p r.evaluated_at r.evaluation kb).0 in
      let kept = reindex-keeps p r kb' in
      elim (Option-cases kb'.status.effective_chunking) [
        | inl e ↦ absurd (eff e)
        | inr (c, e) ↦
            settled_ends (reindex p r kb') c rs (ap (λ spec. spec.retrieval_quality) kept.0 ∙ asked)
              (rw kept.1 spent) (kept.2 ∙ best ∙ e)
              (kept.3 ∙ ap some (effective_chunking-some kb' c e)) short long
      ]

  -- If every evaluation from here on misses the target, the loop stops: after at most two
  -- evaluations more than there are attempts left the KnowledgeBase is Degraded, and it stays on the
  -- best chunking that was seen. Every result of the rounds is for a dataset that is not empty, and
  -- auto-tune is enabled; every re-index that a round forces succeeds.
  pub tuning_ends :
      (kb : KnowledgeBase) (rs : List Round)
      → kb.spec.retrieval_quality ≡ some rq
      → AllBelow rq rs
      → auto_tune_max rq - kb.status.auto_tune_attempts + 2 ≤ length rs
      → Degraded (tuning p kb rs)
  tuning_ends kb [] asked short long = absurd (omega arith)
  tuning_ends kb (r ∷ rs) asked short long =
      let kb' = (judge p r.evaluated_at r.evaluation kb).0 in
      elim (Bool-cases (ltb kb.status.auto_tune_attempts (auto_tune_max rq))) [
        | inl left ↦
            let less = ltb→lt kb.status.auto_tune_attempts (auto_tune_max rq) left in
            let step = judge-tuned p r.evaluated_at r.evaluation kb rq asked short.0 on less in
            let kept = reindex-keeps p r kb' in
            go_on kb r rs (rw step.0) (
              tuning_ends (reindex p r kb') rs
                (ap (λ spec. spec.retrieval_quality) (kept.0 ∙ step.2) ∙ asked) short.1
                (omega arith))
        | inr spent ↦
            let most : auto_tune_max rq ≤ kb.status.auto_tune_attempts = ground arith in
            elim (judge-exhausted p r.evaluated_at r.evaluation kb rq asked short.0 on most) [
              | inl v ↦ stop kb r rs asked short.0 v
              | inr (v, same, spec, best, eff) ↦ go_on kb r rs (rw v) (
                  settles kb r rs (ap (λ spec. spec.retrieval_quality) spec ∙ asked) (rw same most)
                    best eff short.1 (omega arith))
            ]
      ]
