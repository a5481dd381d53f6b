-- ===== src/Backup/Tests.antt =====
-- A Backup whose Job is complete.
use kuberag.Prelude.{codes, ◌≡◌, refl, ◌≢◌, true, Option, none, some, [], ◌∷◌, arith}
use kuberag.Api.Snapshots.{Backup, SnapshotPhase, running}
use kuberag.Cluster.{
  Server, History, Call, ApiError, conflict, update_backup_status, Pass, call, attempt, fetch_job,
  fetch_key, time_now, read_knowledge_base,
}
use kuberag.Decisions.{is_complete, is_failed, has_condition}
use kuberag.Backup.{
  is_terminal, enter, complete, parse_result, store, conclude, collect, watch, work_on, advance,
  fetch_knowledge_base, proceed, reconcile,
}
use kuberag.Backup.Order.{DropsFirst, reconcile-DropsFirst}
use kuberag.Backup.Lifecycle.{Completes, reconcile-Completes}
use kuberag.Stages.{working, Reach}
use kuberag.Backup.Stages.{stage, Life, Life-Reach}
use kuberag.Fixtures.{platform, server, backup}

abbrev waiting : Pass Backup
waiting = record {
  object = record backup {
    status = record (backup.status) { phase = running; active_job = codes "nightly-backup-1" };
  };
  log = [];
}

completes : (reconcile platform server waiting).1.object.status.phase ≡ SnapshotPhase.completed
unfolding reconcile proceed fetch_knowledge_base advance work_on fetch_job watch collect fetch_key
    parse_result conclude time_now complete enter store call attempt is_terminal is_complete
    is_failed has_condition
completes = refl

unfinished : running ≢ SnapshotPhase.completed
unfinished e = absurd (ground arith)

reconcile-Completes_example :
    Completes platform server
      (read_knowledge_base (codes "docs") ∷ [])
      (codes "nightly-backup-1")
      (reconcile platform server waiting).1.object
reconcile-Completes_example = reconcile-Completes platform server waiting unfinished completes

-- A server that takes every call but the update of the status.
abbrev busy_ack : History → Call → Option ApiError
busy_ack h (update_backup_status st) = some conflict
busy_ack h c = none

abbrev busy : Server
busy = record server { ack = busy_ack }

completes_unsaved :
    (reconcile platform busy waiting).1.object.status.phase ≡ SnapshotPhase.completed
unfolding reconcile proceed fetch_knowledge_base advance work_on fetch_job watch collect fetch_key
    parse_result conclude time_now complete enter store call attempt is_terminal is_complete
    is_failed has_condition
completes_unsaved = refl

reconcile-DropsFirst_example : DropsFirst platform busy (reconcile platform busy waiting).1
reconcile-DropsFirst_example =
    reconcile-DropsFirst platform busy waiting unfinished completes_unsaved

-- A pass that completes the Backup, an edit, and another pass.
abbrev suspended : Backup
suspended = record ((reconcile platform server waiting).1.object) {
  spec = record (backup.spec) { suspend = true };
}

abbrev life :
    Life platform waiting.object
      (reconcile platform server (record { object = suspended; log = [] })).1.object
life = Life.passed (Life.edited (Life.passed Life.born server []) suspended refl) server []

Life-Reach_example :
    Reach
      (working (codes "nightly-backup-1"))
      (stage (reconcile platform server (record { object = suspended; log = [] })).1.object)
Life-Reach_example = Life-Reach platform waiting.object life
