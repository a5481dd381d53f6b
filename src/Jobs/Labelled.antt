-- ===== src/Jobs/Labelled.antt =====
-- The Job that buildIngestJob makes, as later passes read it back from its labels.
use kuberag.Prelude.{
  length, take, is_empty, trim_right, Text, text_eq_refl, ℕ, ◌-◌, ◌≡◌, refl, false, some, [], ◌∷◌,
  ◌++◌, arith,
}
use kuberag.Names.{trunc_name, hex_prefix}
use kuberag.Platform.{Platform}
use kuberag.Api.KnowledgeBase.{KnowledgeBase, ChunkingSpec, IngestMode}
use kuberag.Api.Jobs.{Job, ingest}
use kuberag.Labels.{
  chunking_label, job_effective_chunking, job_spec_hash, job_secrets_hash, active_ingest_is_stale,
}
use kuberag.Labels.RoundTrip.{Lacks, job_effective_chunking-chunking_label}
use kuberag.Jobs.{ingest_job_name, build_ingest_job, label_chunking, base_job}

-- The labels that an ingestion carries.
pub record IsLabelled (job : Job) (hash secrets : Text) (eff : ChunkingSpec) : Type 0 where
  pub job_type : job.labels.job_type ≡ ingest
  pub spec_hash : job.labels.spec_hash ≡ hash
  pub secrets_hash : job.labels.secrets_hash ≡ secrets
  pub chunking : job.labels.chunking ≡ chunking_label eff

pub build_ingest_job-IsLabelled :
    (p : Platform) (kb : KnowledgeBase) (hash secrets : Text) (mode : IngestMode)
    (eff : ChunkingSpec) (job : Job) (spec : Text)
    → build_ingest_job p kb hash secrets mode eff ≡ some (job, spec)
    → IsLabelled job hash secrets eff
unfolding build_ingest_job label_chunking base_job
build_ingest_job-IsLabelled p kb hash secrets mode eff job spec built = ground arith

behind : (a : Text) (x : ℕ) (b : Text) → is_empty (a ++ x ∷ b) ≡ false
behind [] x b = refl
behind (y ∷ a) x b = refl

trunc_name-filled :
    (p : Platform) (name : Text) → is_empty name ≡ false → is_empty (trunc_name p name) ≡ false
unfolding trunc_name
trunc_name-filled p name filled = ground (
  arith,
  filled,
  behind (trim_right b'-' (take (63 - 1 - length (hex_prefix p 4 name)) name)) b'-'
      (hex_prefix p 4 name),
)

ingest_job_name-filled :
    (p : Platform) (kb : KnowledgeBase) (hash : Text) (eff : ChunkingSpec)
    → is_empty (ingest_job_name p kb hash eff) ≡ false
unfolding ingest_job_name
ingest_job_name-filled p kb hash eff = trunc_name-filled p _ (behind kb.name _ _)

pub build_ingest_job-named :
    (p : Platform) (kb : KnowledgeBase) (hash secrets : Text) (mode : IngestMode)
    (eff : ChunkingSpec) (job : Job) (spec : Text)
    → build_ingest_job p kb hash secrets mode eff ≡ some (job, spec)
    → job.name ≡ ingest_job_name p kb hash eff
unfolding build_ingest_job label_chunking base_job
build_ingest_job-named p kb hash secrets mode eff job spec built = ground arith

pub build_ingest_job-filled :
    (p : Platform) (kb : KnowledgeBase) (hash secrets : Text) (mode : IngestMode)
    (eff : ChunkingSpec) (job : Job) (spec : Text)
    → build_ingest_job p kb hash secrets mode eff ≡ some (job, spec)
    → is_empty job.name ≡ false
unfolding build_ingest_job label_chunking base_job
build_ingest_job-filled p kb hash secrets mode eff job spec built =
    let filled = ingest_job_name-filled p kb hash eff in ground arith

-- A Job that buildIngestJob made for hashes that are not empty and a chunking whose strategy is
-- not empty and has no dot gives all three back, whatever the fallbacks; and it is not stale for
-- those hashes, whatever the status has observed.
pub build_ingest_job-keeps :
    (p : Platform) (kb : KnowledgeBase) (hash secrets : Text) (mode : IngestMode)
    (eff fallback : ChunkingSpec) (observed observed_secrets : Text) (job : Job) (spec : Text)
    → is_empty hash ≡ false
    → is_empty secrets ≡ false
    → is_empty eff.strategy ≡ false
    → Lacks b'.' eff.strategy
    → build_ingest_job p kb hash secrets mode eff ≡ some (job, spec)
    → (job_spec_hash job observed ≡ hash)
      × (job_secrets_hash job observed_secrets ≡ secrets)
      × (job_effective_chunking job fallback ≡ eff)
      × (active_ingest_is_stale job hash secrets observed observed_secrets ≡ false)
build_ingest_job-keeps p kb hash secrets mode eff fallback observed observed_secrets job spec
      filled_hash filled_secrets filled lacks built =
    let l = build_ingest_job-IsLabelled p kb hash secrets mode eff job spec built in
    (
      unfold job_spec_hash in rw (l.spec_hash, filled_hash) refl,
      unfold job_secrets_hash in rw (l.secrets_hash, filled_secrets) refl,
      job_effective_chunking-chunking_label job eff fallback filled lacks l.chunking,
      unfold active_ingest_is_stale job_spec_hash job_secrets_hash in
          rw
            (
              l.spec_hash,
              l.secrets_hash,
              l.job_type,
              filled_hash,
              filled_secrets,
              text_eq_refl hash,
              text_eq_refl secrets,
            )
            refl,
    )
