-- ===== src/Ingestion/Outcomes.antt =====
-- What the passes after a finished ingestion see of it.
use kuberag.Prelude.{
  if◌then◌else◌, is_empty, Text, text_eq_refl, text_eq_iff, ◌+◌, ◌≤◌, ◌<◌, ◌≡◌, refl, ◌≢◌, Bool,
  true, false, none, some, List, [], arith,
}
use kuberag.Platform.{Platform}
use kuberag.Api.KnowledgeBase.{KnowledgeBase, ChunkingSpec, Time, SourceStatus, full, incremental}
use kuberag.Api.Jobs.{IngestResult}
use kuberag.Schedule.{cron_due}
use kuberag.Status.{set_condition, with_status}
use kuberag.Decisions.{
  needs_ingest, deferred, retune, initial, model_changed, spec_changed, freshness, IngestReason,
  ingest_failure_retry_after, ingest_failure_retry_delay,
}
use kuberag.Ingestion.{ingest_succeeded, ingest_failed, mode_for}

-- A finished ingestion is not repeated. Where it was for the hash that is still desired, which is
-- not empty, and the schedule is not due again, the next pass finds nothing stale, unless a schedule
-- came due during the run: then it starts the deferred ingestion.
pub ingest_succeeded-settles :
    (p : Platform) (at now : Time) (eff : ChunkingSpec) (hash secrets : Text) (r : IngestResult)
    (kb : KnowledgeBase)
    → is_empty hash ≡ false
    → cron_due p kb.spec.schedule at now ≡ false
    → let kb' = ingest_succeeded p at eff hash secrets r kb in
      needs_ingest p kb' hash now ≡ (if kb.status.defer_cron_ingest then some deferred else none)
unfolding ingest_succeeded set_condition needs_ingest
ingest_succeeded-settles p at now eff hash secrets r kb filled quiet =
    ground (arith, text_eq_refl hash, text_eq_refl kb.spec.embedding.model)

-- After a failed ingestion the same spec is not tried again for five minutes from the failure, and
-- a spec with another hash is not held back at all.
pub ingest_failed-backs_off :
    (p : Platform) (at now : Time) (hash desired : Text) (cs : List SourceStatus)
    (kb : KnowledgeBase)
    → let wait = ingest_failure_retry_after (ingest_failed p at hash cs kb) desired now in
      (hash ≡ desired
        → now < at + ingest_failure_retry_delay
        → now + wait ≡ at + ingest_failure_retry_delay)
      × (at + ingest_failure_retry_delay ≤ now → wait ≡ 0)
      × (hash ≢ desired → wait ≡ 0)
unfolding ingest_failed set_condition ingest_failure_retry_after
ingest_failed-backs_off p at now hash desired cs kb = ground (arith, text_eq_iff hash desired)

-- Whether a reason is one of a re-sync on schedule.
abbrev pub is_resync : IngestReason → Bool
is_resync deferred = true
is_resync freshness = true
is_resync _ = false

-- An ingestion for any reason but a re-sync on schedule processes every source in full; one for such
-- a re-sync has the mode of the spec, and is incremental where the spec has none.
pub mode_for_lem :
    (kb : KnowledgeBase) (reason : IngestReason)
    → (is_resync reason ≡ false → mode_for kb reason ≡ full)
      × (is_resync reason ≡ true → kb.spec.ingestion.mode ≢ full → mode_for kb reason ≡ incremental)
      × (is_resync reason ≡ true → kb.spec.ingestion.mode ≡ full → mode_for kb reason ≡ full)
unfolding mode_for
mode_for_lem kb deferred = ground arith
mode_for_lem kb retune = ground arith
mode_for_lem kb initial = ground arith
mode_for_lem kb (model_changed from to) = ground arith
mode_for_lem kb spec_changed = ground arith
mode_for_lem kb freshness = ground arith

-- A deferred re-sync hides a change of the spec. Where a schedule came due during a run, that run is
-- no longer tracked, and the spec has changed since the last ingestion, the ingestion that starts is
-- for the deferred reason and incremental (unless the spec's mode is full); and once it has
-- succeeded, nothing is stale any more, so that the change is never processed in full.
pub deferred_masks_spec_change :
    (p : Platform) (at now : Time) (eff : ChunkingSpec) (desired secrets : Text) (r : IngestResult)
    (kb : KnowledgeBase)
    → kb.status.defer_cron_ingest ≡ true
    → kb.status.active_job ≡ []
    → kb.status.observed_spec_hash ≢ desired
    → is_empty desired ≡ false
    → kb.spec.ingestion.mode ≢ full
    → cron_due p kb.spec.schedule at now ≡ false
    → (needs_ingest p kb desired now ≡ some deferred)
      × (mode_for kb deferred ≡ incremental)
      × (needs_ingest p
            (ingest_succeeded p at eff desired secrets r
              (with_status (λ st. record st { defer_cron_ingest = false }) kb))
            desired
            now
          ≡ none)
deferred_masks_spec_change p at now eff desired secrets r kb flag idle changed filled mode quiet = (
  unfold needs_ingest in ground arith,
  (mode_for_lem kb deferred).1 refl mode,
  ingest_succeeded-settles p at now eff desired secrets r _ filled quiet,
)
