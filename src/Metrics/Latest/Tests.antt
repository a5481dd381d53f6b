-- ===== src/Metrics/Latest/Tests.antt =====
-- The gauge after an ingestion that is observed late, as in controller_test.go.
use kuberag.Prelude.{put, get_or, text_eq, Text, codes, ℕ, ◌+◌, ◌*◌, ◌≡◌, refl, List, [], ◌∷◌}
use kuberag.Api.KnowledgeBase.{Time}
use kuberag.Jobs.Snapshots.{unix_nano}
use kuberag.Metrics.{Freshness, unix_seconds, observe_successful_ingestion}
use kuberag.Metrics.Latest.{Seen, Last, observe_all, observe_all-IsLatest}

abbrev at : ℕ → Time
at s = (62135596800 + s) * 1000000000

abbrev nothing_kept : Freshness
nothing_kept = record { last = []; gauge = [] }

abbrev ingestions : List (Text × Time)
ingestions = (codes "rag", at 2000) ∷ (codes "rag", at 1000) ∷ (codes "docs", at 3000) ∷ []

shows_latest : get_or 0 (codes "rag") (observe_all ingestions nothing_kept).gauge ≡ 2000
unfolding observe_all get_or put text_eq observe_successful_ingestion unix_seconds unix_nano
shows_latest = refl

observe_all-IsLatest_example :
    Seen
      (codes "rag")
      ingestions
      0
      (get_or 0 (codes "rag") (observe_all ingestions nothing_kept).gauge)
    × Last
        (codes "rag")
        ingestions
        0
        (get_or 0 (codes "rag") (observe_all ingestions nothing_kept).gauge)
unfolding get_or
observe_all-IsLatest_example = observe_all-IsLatest (codes "rag") ingestions nothing_kept refl
