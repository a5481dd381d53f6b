-- ===== src/Jobs/Tests.antt =====
-- A Job that is built from a concrete KnowledgeBase.
use kuberag.Prelude.{Text, codes, ◌≡◌, refl, false, Option, none, some, [], arith}
use kuberag.Api.KnowledgeBase.{full, ChunkingSpec}
use kuberag.Api.Jobs.{Job}
use kuberag.Labels.{job_effective_chunking, job_spec_hash, job_secrets_hash, active_ingest_is_stale}
use kuberag.Labels.RoundTrip.{Lacks}
use kuberag.Jobs.{build_ingest_job, label_chunking, base_job, marshal_effective_spec}
use kuberag.Pods.{resource_requirements, scratch_volume, pod_of, worker_pod}
use kuberag.Jobs.Labelled.{build_ingest_job-keeps}
use kuberag.Fixtures.{platform, kb, chunking, job}

abbrev fallback : ChunkingSpec
fallback = record { strategy = codes "fixed"; max_tokens = 400; overlap = 40 }

abbrev from_option : Option (Job × Text) → Job × Text
from_option none = (job, [])
from_option (some built) = built

abbrev built : Job × Text
built = from_option (build_ingest_job platform kb (codes "aaaa") (codes "bbbb") full chunking)

is_built :
    build_ingest_job platform kb (codes "aaaa") (codes "bbbb") full chunking
    ≡ some (built.0, built.1)
unfolding build_ingest_job label_chunking base_job marshal_effective_spec worker_pod pod_of
    resource_requirements scratch_volume
is_built = refl

build_ingest_job-keeps_example :
    (job_spec_hash built.0 [] ≡ codes "aaaa")
    × (job_secrets_hash built.0 [] ≡ codes "bbbb")
    × (job_effective_chunking built.0 fallback ≡ chunking)
    × (active_ingest_is_stale built.0 (codes "aaaa") (codes "bbbb") [] [] ≡ false)
build_ingest_job-keeps_example =
    build_ingest_job-keeps platform kb (codes "aaaa") (codes "bbbb") full chunking fallback [] []
      built.0 built.1 refl refl refl plain is_built
  where
    plain : Lacks b'.' (codes "recursive")
    plain = grind arith
