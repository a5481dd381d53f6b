-- ===== src/Decisions.antt =====
-- The decisions of internal/controller/decision_helpers.go and evalDue of evaluation_controller.go.
use kuberag.Prelude.{
  ltb, ◌==◌, if◌then◌else◌, is_empty, text_eq, Text, codes, ℕ, ◌+◌, ◌-◌, ◌*◌, ◌^◌, Bool, true,
  false, not, ◌&&◌, ◌||◌, Option, none, some, List, [], ◌∷◌, ◌++◌,
}
use kuberag.Platform.{Platform}
use kuberag.Api.KnowledgeBase.{
  KnowledgeBase, Time, Phase, ready_condition, spec_config_too_large, Reason, EvaluationStatus,
}
use kuberag.Api.Jobs.{Job, JobCondition, JobConditionType, job_complete, job_failed}
use kuberag.Names.{hex_prefix}
use kuberag.Chunking.{spec_chunking}
use kuberag.Schedule.{cron_due}
use kuberag.Cluster.{minute, seconds}

unfoldable pub corpus_hash : Platform → KnowledgeBase → Text
corpus_hash p kb =
    hex_prefix p 8
      (p.json_corpus kb.spec.sources (spec_chunking kb) kb.spec.embedding kb.spec.vector_store)

abbrev pub is_some {ℓ} : {A : Type ℓ} → Option A → Bool
is_some none = false
is_some (some a) = true

unfoldable pub user_edited_spec : KnowledgeBase → Text → Bool
user_edited_spec kb desired =
    is_some kb.status.effective_chunking
    && (not (is_empty kb.status.observed_spec_hash)
        && not (text_eq kb.status.observed_spec_hash desired))

-- The reasons that needsIngest gives, and their texts below.
pub data IngestReason : Type 0 where
  deferred retune initial : IngestReason
  model_changed : Text → Text → IngestReason
  spec_changed freshness : IngestReason

-- `%q`, for a text without a character to escape.
abbrev pub quoted : Text → Text
quoted t = 34 ∷ (t ++ 34 ∷ [])

abbrev pub reason_text : IngestReason → Text
reason_text deferred = codes "deferred cron ingestion"
reason_text retune = codes "auto-tune re-index"
reason_text initial = codes "initial ingestion"
reason_text (model_changed from to) =
    codes "embedding model changed " ++ (quoted from ++ (codes " -> " ++ quoted to))
reason_text spec_changed = codes "spec changed (sources/chunking/embedding/store)"
reason_text freshness = codes "freshness window elapsed"

-- The time of a pointer that may be nil, as the zero time.
abbrev pub time_or_zero : Option Time → Time
time_or_zero none = 0
time_or_zero (some t) = t

-- `none` where no ingestion is needed.
unfoldable pub needs_ingest : Platform → KnowledgeBase → Text → Time → Option IngestReason
needs_ingest p kb desired now =
    let st = kb.status in
    let model = kb.spec.embedding.model in
    if st.defer_cron_ingest && is_empty st.active_job
    then some deferred
    else if st.pending_retune
    then some retune
    else if is_empty st.observed_spec_hash
    then some initial
    else if not (text_eq st.observed_embedding_model model)
    then some (model_changed st.observed_embedding_model model)
    else if not (text_eq st.observed_spec_hash desired)
    then some spec_changed
    else if not (is_empty kb.spec.schedule)
        && cron_due p kb.spec.schedule (time_or_zero st.last_indexed_time) now
    then some freshness
    else none

unfoldable pub has_data : Phase → Bool
has_data Phase.ready = true
has_data Phase.degraded = true
has_data _ = false

disabled : Option Bool → Bool
disabled (some false) = true
disabled _ = false

-- The tests of evalDue behind those on the spec.
eval_schedule_due : Platform → Text → Option EvaluationStatus → Time → Bool
eval_schedule_due p schedule none now = true
eval_schedule_due p schedule (some e) now =
    if is_empty schedule then false else cron_due p schedule (time_or_zero e.time) now

unfoldable pub eval_due : Platform → KnowledgeBase → Time → Bool
unfolding disabled eval_schedule_due
eval_due p kb now = elim kb.spec.retrieval_quality [
  | none ↦ false
  | some rq ↦
      if disabled rq.enabled
      then false
      else if not (has_data kb.status.phase)
      then false
      else if kb.status.indexed_chunks == 0
      then false
      else eval_schedule_due p rq.eval_schedule kb.status.evaluation now
]

pub is_type : JobConditionType → JobConditionType → Bool
is_type job_complete job_complete = true
is_type job_failed job_failed = true
is_type _ _ = false

unfoldable pub has_condition : JobConditionType → List JobCondition → Bool
unfolding is_type
has_condition t [] = false
has_condition t (c ∷ cs) = (is_type t c.type && c.status) || has_condition t cs

unfoldable pub is_complete : Job → Bool
is_complete j = has_condition job_complete j.conditions

unfoldable pub is_failed : Job → Bool
is_failed j = has_condition job_failed j.conditions

-- The start is unknown where it is nil or the zero time. The deadline is added as a time.Duration, which
-- is taken away where it is negative.
unfoldable pub is_active_job_timed_out : Job → Option Time → Time → Bool
unfolding seconds
is_active_job_timed_out j none now = false
is_active_job_timed_out j (some started) now =
    let deadline : ℕ = elim j.active_deadline_seconds [ none ↦ 7200 | some d ↦ d ] in
    let d = seconds deadline in
    if started == 0
    then false
    else if ltb d (2 ^ 63)
    then ltb (started + d + 10 * minute) now
    else ltb (started + 10 * minute) (now + (2 ^ 64 - d))

abbrev pub ingest_failure_retry_delay : ℕ
ingest_failure_retry_delay = 5 * minute

unfoldable pub is_failed_phase : Phase → Bool
is_failed_phase Phase.failed = true
is_failed_phase _ = false

unfoldable pub ingest_failure_retry_after : KnowledgeBase → Text → Time → ℕ
unfolding is_failed_phase
ingest_failure_retry_after kb desired now = elim kb.status.last_failure_time [
  | none ↦ 0
  | some t ↦
      if not (is_failed_phase kb.status.phase)
        || not (text_eq kb.status.last_failed_spec_hash desired)
      then 0
      else t + ingest_failure_retry_delay - now
]

is_spec_config_too_large : Reason → Bool
is_spec_config_too_large spec_config_too_large = true
is_spec_config_too_large _ = false

unfoldable pub spec_config_too_large_unchanged : Platform → KnowledgeBase → Bool
unfolding is_spec_config_too_large
spec_config_too_large_unchanged p kb =
    elim (p.find_status_condition kb.status.conditions ready_condition) [
      | none ↦ false
      | some c ↦ is_spec_config_too_large c.reason && c.observed_generation == kb.generation
    ]
