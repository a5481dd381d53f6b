-- ===== src/Backup.antt =====
-- internal/controller/backup_controller.go, and the reading of a result in backup_jobs.go. The
-- object is the one that the first read returned; traces, messages and logs are not modelled.
pub mod Lifecycle
pub mod Order
pub mod Stages
pub mod Tests
use kuberag.Prelude.{
  if◌then◌else◌, Text, codes, ◌*◌, Bool, true, false, not, ◌&&◌, Option, none, some, [], ◌∷◌,
}
use kuberag.Platform.{Platform}
use kuberag.Api.KnowledgeBase.{
  KnowledgeBase, Time, Reason, ready_condition, knowledge_base_not_found, result_read_failed,
  backup_job_created, backup_failed, backup_complete, resource_quota_exceeded,
}
use kuberag.Api.Snapshots.{Backup, BackupResult, SnapshotPhase, completed, running}
use kuberag.Api.Jobs.{Job}
use kuberag.Names.{spec_config_map_name, result_config_map_name}
use kuberag.Labels.{sprintf_d}
use kuberag.Cluster.{
  ◌>>=◌, ◌>>◌, Server, read_knowledge_base, create_spec_config_map, create_job, delete_config_map,
  update_finalizer, update_backup_status, ApiError, other, M, pure, get, modify, call, attempt,
  answer, fetch_key, fetch_job, time_now, on_error, Outcome, done, requeue, requeue_after, fails,
  second, Got, found, refused, is_quota_exceeded, is_not_found, ignore_already_exists,
}
use kuberag.Decisions.{is_complete, is_failed}
use kuberag.Jobs.Snapshots.{build_backup_job, unix_nano}

unfoldable pub is_terminal : SnapshotPhase → Bool
is_terminal completed = true
is_terminal SnapshotPhase.failed = true
is_terminal _ = false

-- setBackupCond after an assignment to the phase.
pub enter : Platform → SnapshotPhase → Bool → Reason → Backup → Backup
enter p phase ok reason bkp = record bkp {
  status = record (bkp.status) {
    phase = phase;
    conditions =
        p.set_status_condition bkp.status.conditions (record {
          type = ready_condition;
          status = ok;
          reason = reason;
          observed_generation = 0;
        });
  };
}

-- The result's fields, and the time of the end.
pub complete : Platform → Time → BackupResult → Backup → Backup
unfolding enter
complete p now r bkp = enter p completed true backup_complete (record bkp {
  status = record (bkp.status) {
    completion_time = some now;
    total_points = r.total_points;
    size_bytes = r.size_bytes;
    location = r.location;
  };
})

pub with_active : Text → Backup → Backup
with_active name bkp = record bkp { status = record (bkp.status) { active_job = name } }

-- The result that a readable ConfigMap holds.
pub parse_result {ℓ} : {A : Type ℓ} → (Text → Option A) → Got (Option Text) → Option A
parse_result parse (found (some text)) = parse text
parse_result parse (found none) = none
parse_result parse (refused e) = none

module _ (p : Platform) (s : Server) where
  -- `return ctrl.Result{…}, r.Status().Update(ctx, &bkp)`
  pub store : Outcome → M Backup Outcome
  store out = do
    bkp ← get
    err ← call s (update_backup_status bkp.status)
    on_error err fails (pure out)

  pub fail : Reason → M Backup Outcome
  unfolding enter
  fail reason = do modify (enter p SnapshotPhase.failed false reason); store done

  -- What the error of a creation leads to.
  pub refuse : ApiError → M Backup Outcome
  refuse e = if is_quota_exceeded e then fail resource_quota_exceeded else fails e

  pub launch : Option (Job × Text) → M Backup Outcome
  launch none = fails (other (codes "cannot build the backup job"))
  launch (some (job, spec)) = do
    err ← call s (create_spec_config_map (spec_config_map_name p job.name) spec)
    on_error (ignore_already_exists err) refuse do
      err ← call s (create_job job)
      on_error (ignore_already_exists err) refuse do
        modify (λ bkp. enter p running false backup_job_created (with_active job.name bkp))
        store done

  pub start : KnowledgeBase → M Backup Outcome
  start kb = do
    now ← time_now s
    let id = sprintf_d (unix_nano now)
    modify (λ bkp. record bkp { status = record (bkp.status) { backup_id = id } })
    bkp ← get
    launch (build_backup_job p kb bkp id)

  -- The branch of a Job that completed, on what its result reads as.
  pub conclude : Text → Option BackupResult → M Backup Outcome
  conclude job none = fail result_read_failed
  conclude job (some r) = do
    now ← time_now s
    modify (complete p now r)
    attempt s (delete_config_map (result_config_map_name p job))
    attempt s (delete_config_map (spec_config_map_name p job))
    store done

  pub collect : Job → M Backup Outcome
  collect job = do
    raw ← fetch_key s (result_config_map_name p job.name) (codes "result.json")
    conclude job.name (parse_result p.backup_result raw)

  -- The Job went before its end was seen.
  pub forget_job : M Backup Outcome
  forget_job = do modify (with_active []); store requeue

  pub watch : Got Job → M Backup Outcome
  watch (refused e) = if is_not_found e then forget_job else fails e
  watch (found job) =
      if not (is_complete job) && not (is_failed job)
      then pure (requeue_after (5 * second))
      else if is_failed job
      then fail backup_failed
      else collect job

  fetch_knowledge_base : Text → M Backup (Got KnowledgeBase)
  fetch_knowledge_base name w = (
    answer s (s.ack w.log (read_knowledge_base name)) (s.knowledge_base w.log name),
    record w { log = read_knowledge_base name ∷ w.log },
  )

  -- `if bkp.Status.ActiveJob == "" { … }`, and the code behind it.
  pub work_on : Text → KnowledgeBase → M Backup Outcome
  work_on [] kb = start kb
  work_on (c ∷ name) kb = do got ← fetch_job s (c ∷ name); watch got

  -- From the read of the KnowledgeBase on.
  pub advance : Got KnowledgeBase → M Backup Outcome
  advance (refused e) = if is_not_found e then fail knowledge_base_not_found else fails e
  advance (found kb) = do bkp ← get; work_on bkp.status.active_job kb

  pub proceed : M Backup Outcome
  unfolding fetch_knowledge_base
  proceed = do bkp ← get; got ← fetch_knowledge_base bkp.spec.knowledge_base_ref; advance got

  -- An update of the object's finalizer, and its end.
  pub put_finalizer : Bool → M Backup Outcome
  put_finalizer b = do
    modify (λ bkp. record bkp { has_finalizer = b })
    err ← call s (update_finalizer b)
    on_error err fails (pure done)

  pub reconcile : M Backup Outcome
  unfolding put_finalizer
  reconcile = do
    bkp ← get
    if bkp.spec.suspend
        then pure done
        else if not bkp.has_finalizer
        then put_finalizer true
        else if bkp.deleting
        then put_finalizer false
        else if is_terminal bkp.status.phase
        then pure done
        else proceed
