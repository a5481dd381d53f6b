-- ===== src/Reconcile/Edits.antt =====
-- The pass that meets a spec which the user has changed while a tuned chunking is in use.
use kuberag.Prelude.{Text, ◌≡◌, refl, ◌⊎◌, inl, inr, true, false, none, some, arith}
use kuberag.Platform.{Platform}
use kuberag.Api.KnowledgeBase.{KnowledgeBase, Time, full}
use kuberag.Chunking.{effective_chunking, spec_chunking}
use kuberag.AutoTune.{record_auto_tune_duration}
use kuberag.Decisions.{user_edited_spec, needs_ingest, IngestReason, model_changed, spec_changed}
use kuberag.Ingestion.{mode_for}
use kuberag.Ingestion.Outcomes.{mode_for_lem}
use kuberag.Reconcile.{drop_override}

-- Why an edited spec is ingested.
edit_reason :
    (p : Platform) (kb : KnowledgeBase) (desired : Text) (now : Time)
    → user_edited_spec kb desired ≡ true
    → kb.status.defer_cron_ingest ≡ false
    → let found = needs_ingest p (drop_override desired kb) desired now in
      (found ≡ some (model_changed kb.status.observed_embedding_model kb.spec.embedding.model))
      ⊎ (found ≡ some spec_changed)
unfolding user_edited_spec drop_override needs_ingest record_auto_tune_duration
edit_reason p kb desired now edited idle = ground arith

-- An edit of the spec is honoured. Where the user has changed the spec while a tuned chunking is in
-- use, and no re-sync is deferred, the pass goes on with the chunking of the spec, no attempts used
-- and no best chunking on record, and the ingestion that it needs is a full one.
pub drop_override-full :
    (p : Platform) (kb : KnowledgeBase) (desired : Text) (now : Time)
    → user_edited_spec kb desired ≡ true
    → kb.status.defer_cron_ingest ≡ false
    → let kb' = drop_override desired kb in
      (effective_chunking kb' ≡ spec_chunking kb)
      × (kb'.status.auto_tune_attempts ≡ 0)
      × (kb'.status.best_chunking ≡ none)
      × ((reason : IngestReason) × (needs_ingest p kb' desired now ≡ some reason)
          × (mode_for kb' reason ≡ full))
drop_override-full p kb desired now edited idle =
    let cleared = reset kb desired edited in
    elim (edit_reason p kb desired now edited idle) [
      | inl model ↦
          (cleared.0, cleared.1, cleared.2, (_, model, (mode_for_lem _ (model_changed _ _)).0 refl))
      | inr spec ↦
          (cleared.0, cleared.1, cleared.2, (_, spec, (mode_for_lem _ spec_changed).0 refl))
    ]
  where
    reset :
        (kb : KnowledgeBase) (desired : Text)
        → user_edited_spec kb desired ≡ true
        → (effective_chunking (drop_override desired kb) ≡ spec_chunking kb)
          × ((drop_override desired kb).status.auto_tune_attempts ≡ 0)
          × ((drop_override desired kb).status.best_chunking ≡ none)
    reset kb desired edited =
        unfold drop_override effective_chunking spec_chunking record_auto_tune_duration in
        ground arith
