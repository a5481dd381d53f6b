-- ===== src/Metrics.antt =====
-- internal/controller/metrics.go: observeSuccessfulIngestion, the one metric with a state of its own.
-- The mutex makes each call a step. A time before 1970 has 0 seconds here: the source skips it too.
pub mod Latest
use kuberag.Prelude.{put, get_or, leb, if◌then◌else◌, Text, ℕ, ◌/◌, List}
use kuberag.Api.KnowledgeBase.{Time}
use kuberag.Jobs.Snapshots.{unix_nano}

-- lastSuccessfulIngestionByNamespace, and what lastSuccessfulIngestionTimestamp shows.
pub record Freshness : Type 0 where
  pub last : List (Text × ℕ)
  pub gauge : List (Text × ℕ)

unfoldable pub unix_seconds : Time → ℕ
unix_seconds t = unix_nano t / 1000000000

unfoldable pub observe_successful_ingestion : Text → Time → Freshness → Freshness
observe_successful_ingestion namespace timestamp f =
    let seconds = unix_seconds timestamp in
    if leb seconds (get_or 0 namespace f.last)
    then f
    else record { last = put namespace seconds f.last; gauge = put namespace seconds f.gauge }
