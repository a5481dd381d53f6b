-- ===== src/Restore.antt =====
-- internal/controller/restore_controller.go. The object is the one that the first read returned;
-- traces, messages and logs are not modelled.
pub mod Source
pub mod Stages
pub mod Tests
use kuberag.Prelude.{
  if◌then◌else◌, is_empty, Text, codes, ℕ, ◌*◌, Bool, true, false, not, ◌&&◌, Option, none, some,
  [], ◌∷◌,
}
use kuberag.Platform.{Platform}
use kuberag.Api.KnowledgeBase.{
  KnowledgeBase, Time, Reason, ready_condition, knowledge_base_not_found, result_read_failed,
  backup_not_found, backup_not_ready, restore_job_created, restore_failed, restore_complete,
  resource_quota_exceeded,
}
use kuberag.Api.Snapshots.{Backup, Restore, SnapshotPhase, completed, running}
use kuberag.Api.Jobs.{Job}
use kuberag.Names.{spec_config_map_name, result_config_map_name}
use kuberag.Cluster.{
  ◌>>=◌, ◌>>◌, Server, read_knowledge_base, read_backup, create_spec_config_map, create_job,
  delete_config_map, update_finalizer, update_restore_status, ApiError, other, M, pure, get, modify,
  call, attempt, answer, fetch_key, fetch_job, time_now, on_error, Outcome, done, requeue,
  requeue_after, fails, second, Got, found, refused, is_quota_exceeded, is_not_found,
  ignore_already_exists,
}
use kuberag.Decisions.{is_complete, is_failed}
use kuberag.Jobs.Snapshots.{build_restore_job}
use kuberag.Backup.{is_terminal, parse_result}

-- setRestoreCond after an assignment to the phase.
enter : Platform → SnapshotPhase → Bool → Reason → Restore → Restore
enter p phase ok reason rest = record rest {
  status = record (rest.status) {
    phase = phase;
    conditions =
        p.set_status_condition rest.status.conditions (record {
          type = ready_condition;
          status = ok;
          reason = reason;
          observed_generation = 0;
        });
  };
}

complete : Platform → Time → ℕ → Restore → Restore
unfolding enter
complete p now points rest = enter p completed true restore_complete (record rest {
  status = record (rest.status) { completion_time = some now; restored_points = points };
})

with_active : Text → Restore → Restore
with_active name rest = record rest { status = record (rest.status) { active_job = name } }

-- `backup.Status.Phase != Completed || backup.Status.Location == ""`, denied.
pub is_restorable : Backup → Bool
is_restorable bkp = elim bkp.status.phase [
  | completed ↦ not (is_empty bkp.status.location)
  | _ ↦ false
]

module _ (p : Platform) (s : Server) where
  -- `return ctrl.Result{…}, r.Status().Update(ctx, &rest)`
  store : Outcome → M Restore Outcome
  store out = do
    rest ← get
    err ← call s (update_restore_status rest.status)
    on_error err fails (pure out)

  fail : Reason → M Restore Outcome
  unfolding enter
  fail reason = do modify (enter p SnapshotPhase.failed false reason); store done

  -- What the error of a creation leads to.
  refuse : ApiError → M Restore Outcome
  refuse e = if is_quota_exceeded e then fail resource_quota_exceeded else fails e

  launch : Option (Job × Text) → M Restore Outcome
  launch none = fails (other (codes "cannot build the restore job"))
  launch (some (job, spec)) = do
    err ← call s (create_spec_config_map (spec_config_map_name p job.name) spec)
    on_error (ignore_already_exists err) refuse do
      err ← call s (create_job job)
      on_error (ignore_already_exists err) refuse do
        modify (λ rest. enter p running false restore_job_created (with_active job.name rest))
        store done

  start : KnowledgeBase → Backup → M Restore Outcome
  start kb bkp = do rest ← get; now ← time_now s; launch (build_restore_job p kb rest bkp now)

  -- The branch of a Job that completed, on what its result reads as.
  conclude : Text → Option ℕ → M Restore Outcome
  conclude job none = fail result_read_failed
  conclude job (some points) = do
    now ← time_now s
    modify (complete p now points)
    attempt s (delete_config_map (result_config_map_name p job))
    attempt s (delete_config_map (spec_config_map_name p job))
    store done

  collect : Job → M Restore Outcome
  collect job = do
    raw ← fetch_key s (result_config_map_name p job.name) (codes "result.json")
    conclude job.name (parse_result p.restore_result raw)

  -- The Job went before its end was seen.
  forget_job : M Restore Outcome
  forget_job = do modify (with_active []); store requeue

  watch : Got Job → M Restore Outcome
  watch (refused e) = if is_not_found e then forget_job else fails e
  watch (found job) =
      if not (is_complete job) && not (is_failed job)
      then pure (requeue_after (5 * second))
      else if is_failed job
      then fail restore_failed
      else collect job

  -- `if rest.Status.ActiveJob == "" { … }`, and the code behind it.
  work_on : Text → KnowledgeBase → Backup → M Restore Outcome
  work_on [] kb bkp = start kb bkp
  work_on (c ∷ name) kb bkp = do got ← fetch_job s (c ∷ name); watch got

  fetch_knowledge_base : Text → M Restore (Got KnowledgeBase)
  fetch_knowledge_base name w = (
    answer s (s.ack w.log (read_knowledge_base name)) (s.knowledge_base w.log name),
    record w { log = read_knowledge_base name ∷ w.log },
  )

  fetch_backup : Text → M Restore (Got Backup)
  fetch_backup name w = (
    answer s (s.ack w.log (read_backup name)) (s.backup w.log name),
    record w { log = read_backup name ∷ w.log },
  )

  -- From the read of the KnowledgeBase on.
  into_knowledge_base : Backup → Got KnowledgeBase → M Restore Outcome
  into_knowledge_base bkp (refused e) =
      if is_not_found e then fail knowledge_base_not_found else fails e
  into_knowledge_base bkp (found kb) = do rest ← get; work_on rest.status.active_job kb bkp

  -- From the read of the Backup on.
  use_restorable : Bool → Backup → M Restore Outcome
  use_restorable false bkp = fail backup_not_ready
  use_restorable true bkp = do
    rest ← get
    got ← fetch_knowledge_base rest.spec.knowledge_base_ref
    into_knowledge_base bkp got

  from_backup : Got Backup → M Restore Outcome
  from_backup (refused e) = if is_not_found e then fail backup_not_found else fails e
  from_backup (found bkp) = use_restorable (is_restorable bkp) bkp

  proceed : M Restore Outcome
  proceed = do rest ← get; got ← fetch_backup rest.spec.backup_ref; from_backup got

  -- An update of the object's finalizer, and its end.
  put_finalizer : Bool → M Restore Outcome
  put_finalizer b = do
    modify (λ rest. record rest { has_finalizer = b })
    err ← call s (update_finalizer b)
    on_error err fails (pure done)

  pub reconcile : M Restore Outcome
  unfolding put_finalizer
  reconcile = do
    rest ← get
    if rest.spec.suspend
        then pure done
        else if not rest.has_finalizer
        then put_finalizer true
        else if rest.deleting
        then put_finalizer false
        else if is_terminal rest.status.phase
        then pure done
        else proceed
