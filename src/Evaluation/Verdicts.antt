-- ===== src/Evaluation/Verdicts.antt =====
-- What one evaluation does to the auto-tune state of a KnowledgeBase.
use kuberag.Prelude.{
  ltb, Bool-cases, text_eq_refl, text_eq_sound, ℕ, ◌+◌, ◌≤◌, ◌<◌, ◌≡◌, refl, sym, ap, ◌∙◌, ◌≢◌, ◌⊎◌,
  inl, inr, true, false, Option, none, some, arith,
}
use kuberag.Platform.{Platform}
use kuberag.Api.KnowledgeBase.{KnowledgeBase, Time, ChunkingSpec, RetrievalQualitySpec, Phase}
use kuberag.Api.Jobs.{EvalResult}
use kuberag.Chunking.{spec_chunking, effective_chunking, chunking_eq}
use kuberag.Status.{set_condition}
use kuberag.AutoTune.{
  apply_auto_tune, record_best, settle_on_best, auto_tune_enabled, auto_tune_max,
  record_auto_tune_duration,
}
use kuberag.Evaluation.{
  judge, evaluated, tune, degrade, settle_or_degrade, Verdict, tuned, settled, below, panics,
}

-- A result that counts and that misses the target of the spec.
pub record IsBelow (rq : RetrievalQualitySpec) (r : EvalResult) : Type 0 where
  pub has_queries : 0 < r.queries
  pub misses : r.recall_percent < rq.minimum_recall_percent

pub chunking_eq_refl : (c : ChunkingSpec) → chunking_eq c c ≡ true
unfolding chunking_eq
chunking_eq_refl c = ground (arith, text_eq_refl c.strategy)

pub judge-panics :
    (p : Platform) (now : Time) (r : EvalResult) (kb : KnowledgeBase)
    → kb.spec.retrieval_quality ≡ none
    → r.queries ≢ 0
    → judge p now r kb ≡ (evaluated now r kb, panics)
unfolding judge
judge-panics p now r kb gone asked = ground arith

-- The number of attempts never passes the limit of the spec: where it is within it before an
-- evaluation, it is after it, on every branch.
pub judge-attempts :
    (p : Platform) (now : Time) (r : EvalResult) (kb : KnowledgeBase) (rq : RetrievalQualitySpec)
    → kb.spec.retrieval_quality ≡ some rq
    → kb.status.auto_tune_attempts ≤ auto_tune_max rq
    → (judge p now r kb).0.status.auto_tune_attempts ≤ auto_tune_max rq
unfolding judge record_best set_condition apply_auto_tune settle_on_best record_auto_tune_duration
judge-attempts p now r kb rq asked bound = ground arith

-- An evaluation below the target leaves a best chunking on record, whose recall is at least that of
-- this evaluation, and no lower than the best recall on record before it, where there was one.
pub judge-best :
    (p : Platform) (now : Time) (r : EvalResult) (kb : KnowledgeBase) (rq : RetrievalQualitySpec)
    → kb.spec.retrieval_quality ≡ some rq
    → IsBelow rq r
    → let st = (judge p now r kb).0.status in
      (st.best_chunking ≢ none)
      × (r.recall_percent ≤ st.best_recall_percent)
      × (kb.status.best_chunking ≢ none → kb.status.best_recall_percent ≤ st.best_recall_percent)
unfolding judge record_best set_condition apply_auto_tune settle_on_best record_auto_tune_duration
judge-best p now r kb rq asked short = ground arith

pub chunking_eq_sound : (c d : ChunkingSpec) → chunking_eq c d ≡ true → c ≡ d
unfolding chunking_eq
chunking_eq_sound c d h = ground (arith, text_eq_sound c.strategy d.strategy)

judge-tune :
    (p : Platform) (now : Time) (r : EvalResult) (kb : KnowledgeBase) (rq : RetrievalQualitySpec)
    → kb.spec.retrieval_quality ≡ some rq
    → IsBelow rq r
    → judge p now r kb ≡ tune p now rq (record_best r.recall_percent (evaluated now r kb))
unfolding judge
judge-tune p now r kb rq asked short = ground arith

record_best-some :
    (n : ℕ) (kb : KnowledgeBase)
    → (c : ChunkingSpec) × ((record_best n kb).status.best_chunking ≡ some c)
unfolding record_best
record_best-some n kb = go kb.status.best_chunking refl
  where
    go :
        (b : Option ChunkingSpec)
        → kb.status.best_chunking ≡ b
        → (c : ChunkingSpec) × ((record_best n kb).status.best_chunking ≡ some c)
    go none e = (effective_chunking kb, ground arith)
    go (some c) e = elim (Bool-cases (ltb kb.status.best_recall_percent n)) [
      | inl more ↦ (effective_chunking kb, ground arith)
      | inr less ↦ (c, ground arith)
    ]

abbrev OnBest : KnowledgeBase × Verdict → Type 0
OnBest out =
    (out.0.status.phase ≡ Phase.degraded)
    × (out.0.status.best_chunking ≡ some (effective_chunking out.0))

degrade-OnBest :
    (p : Platform) (kb : KnowledgeBase) (c : ChunkingSpec)
    → kb.status.best_chunking ≡ some c
    → effective_chunking kb ≡ c
    → OnBest (degrade p kb, below)
unfolding degrade set_condition effective_chunking spec_chunking
degrade-OnBest p kb c best eff = (refl, best ∙ ap some (sym eff))

settle-below :
    (p : Platform) (kb : KnowledgeBase) (c : ChunkingSpec)
    → kb.status.best_chunking ≡ some c
    → (settle_or_degrade p (settle_on_best kb)).1 ≡ below
    → OnBest (settle_or_degrade p (settle_on_best kb))
settle-below p kb c best v = elim (Bool-cases (chunking_eq (effective_chunking kb) c)) [
  | inl same ↦
      rw (unmoved same)
        (unfold settle_or_degrade in degrade-OnBest p kb c best (chunking_eq_sound _ c same))
  | inr other ↦ absurd (moved other v)
]
  where
    unmoved : chunking_eq (effective_chunking kb) c ≡ true → settle_on_best kb ≡ (kb, false)
    unmoved same = unfold settle_on_best in ground arith

    moved :
        chunking_eq (effective_chunking kb) c ≡ false
        → (settle_or_degrade p (settle_on_best kb)).1 ≢ below
    moved other = unfold settle_on_best settle_or_degrade in ground arith

tune-below :
    (p : Platform) (now : Time) (rq : RetrievalQualitySpec) (kb : KnowledgeBase) (c : ChunkingSpec)
    → auto_tune_enabled rq ≡ true
    → kb.status.best_chunking ≡ some c
    → (tune p now rq kb).1 ≡ below
    → OnBest (tune p now rq kb)
unfolding tune
tune-below p now rq kb c on best v =
    elim (Bool-cases (ltb kb.status.auto_tune_attempts (auto_tune_max rq))) [
      | inl left ↦ cc (rw (on, left) at v)
      | inr spent ↦
          rw (on, spent)
            (settle-below p (record_auto_tune_duration kb) c
              (unfold record_auto_tune_duration in best) (rw (on, spent) at v))
    ]

module _ (p : Platform) (now : Time) (r : EvalResult) (kb : KnowledgeBase)
    (rq : RetrievalQualitySpec) (asked : kb.spec.retrieval_quality ≡ some rq) (short : IsBelow rq r)
    (on : auto_tune_enabled rq ≡ true) where
  -- While attempts are left, one is used.
  pub judge-tuned :
      kb.status.auto_tune_attempts < auto_tune_max rq
      → ((judge p now r kb).1 ≡ tuned)
        × ((judge p now r kb).0.status.auto_tune_attempts ≡ kb.status.auto_tune_attempts + 1)
        × ((judge p now r kb).0.spec ≡ kb.spec)
  unfolding judge record_best set_condition apply_auto_tune
  judge-tuned left = ground arith

  -- Then the best chunking is settled on, unless it is the effective one.
  pub judge-exhausted :
      auto_tune_max rq ≤ kb.status.auto_tune_attempts
      → ((judge p now r kb).1 ≡ below)
        ⊎ ((judge p now r kb).1 ≡ settled)
          × ((judge p now r kb).0.status.auto_tune_attempts ≡ kb.status.auto_tune_attempts)
          × ((judge p now r kb).0.spec ≡ kb.spec)
          × ((judge p now r kb).0.status.best_chunking
              ≡ (judge p now r kb).0.status.effective_chunking)
          × ((judge p now r kb).0.status.effective_chunking ≢ none)
  unfolding judge record_best set_condition settle_on_best record_auto_tune_duration
  judge-exhausted spent = ground arith

  -- A chunking that has been settled on is not left again.
  pub judge-settled :
      (c : ChunkingSpec)
      → auto_tune_max rq ≤ kb.status.auto_tune_attempts
      → kb.status.best_chunking ≡ some c
      → kb.status.effective_chunking ≡ some c
      → (judge p now r kb).1 ≡ below
  unfolding judge record_best set_condition settle_on_best record_auto_tune_duration
      effective_chunking
  judge-settled c spent best eff = ground (arith, chunking_eq_refl c)

  -- The verdict `below` is Degraded, on the best chunking.
  pub judge-below :
      (judge p now r kb).1 ≡ below
      → ((judge p now r kb).0.status.phase ≡ Phase.degraded)
        × ((judge p now r kb).0.status.best_chunking
            ≡ some (effective_chunking (judge p now r kb).0))
  judge-below v =
      let (c, best) = record_best-some r.recall_percent (evaluated now r kb) in
      rw (judge-tune p now r kb rq asked short) (
        tune-below p now rq (record_best r.recall_percent (evaluated now r kb)) c on best
          (rw (← judge-tune p now r kb rq asked short) v))
