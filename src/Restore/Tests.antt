-- ===== src/Restore/Tests.antt =====
-- A new Restore from a Backup that is Completed.
use kuberag.Prelude.{codes, ◌≡◌, refl, true, false, none, [], arith}
use kuberag.Api.Snapshots.{Restore, SnapshotPhase}
use kuberag.Cluster.{Pass, call, time_now, read_backup, ignore_already_exists}
use kuberag.History.{jobs_created}
use kuberag.Jobs.{marshal_query_spec}
use kuberag.Pods.{resource_requirements, scratch_volume, pod_of, worker_pod}
use kuberag.Jobs.Snapshots.{build_restore_job}
use kuberag.Backup.{is_terminal}
use kuberag.Restore.{
  is_restorable, store, launch, start, work_on, fetch_knowledge_base, fetch_backup,
  into_knowledge_base, use_restorable, from_backup, proceed, reconcile,
}
use kuberag.Restore.Source.{reconcile-Restorable}
use kuberag.Stages.{waiting, Reach}
use kuberag.Restore.Stages.{stage, RestoreLife, RestoreLife-Reach}
use kuberag.Fixtures.{platform, server, backup}

abbrev restore : Restore
restore = record {
  name = codes "recover";
  namespace = codes "rag";
  deleting = false;
  has_finalizer = true;
  spec = record {
    backup_ref = codes "nightly";
    knowledge_base_ref = codes "docs";
    suspend = false;
  };
  status = record {
    phase = SnapshotPhase.unset;
    active_job = [];
    completion_time = none;
    restored_points = 0;
    conditions = [];
  };
}

abbrev fresh : Pass Restore
fresh = record { object = restore; log = [] }

starts : jobs_created (reconcile platform server fresh).1.log ≡ 1
unfolding reconcile proceed fetch_backup from_backup use_restorable fetch_knowledge_base
    into_knowledge_base work_on start launch time_now store call ignore_already_exists is_terminal
    is_restorable build_restore_job marshal_query_spec worker_pod pod_of resource_requirements
    scratch_volume
starts = refl

reconcile-Restorable_example :
    (server.ack [] (read_backup (codes "nightly")) ≡ none)
    × (is_restorable backup ≡ true)
    × (restore.status.active_job ≡ [])
reconcile-Restorable_example = reconcile-Restorable platform server fresh (omega (arith, starts))

-- A pass that starts the Job, an edit, and the pass that completes.
abbrev edited : Restore
edited = record ((reconcile platform server fresh).1.object) {
  spec = record (restore.spec) { suspend = true };
}

abbrev life :
    RestoreLife platform restore
      (reconcile platform server (record { object = edited; log = [] })).1.object
life =
    RestoreLife.passed
      (RestoreLife.edited (RestoreLife.passed RestoreLife.born server []) edited refl) server []

RestoreLife-Reach_example :
    Reach waiting
      (stage (reconcile platform server (record { object = edited; log = [] })).1.object)
RestoreLife-Reach_example = RestoreLife-Reach platform restore life
