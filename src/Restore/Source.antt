-- ===== src/Restore/Source.antt =====
-- What a restore Job is started from.
use kuberag.Prelude.{
  Bool-cases, Text, ℕ, ◌<◌, ◌≡◌, refl, ap, ◌∙◌, ◌⊎◌, inl, inr, Bool, true, false, Option, none,
  some, [], ◌∷◌, arith,
}
use mathlib.Core.Path.{subst}
use kuberag.Platform.{Platform}
use kuberag.Api.KnowledgeBase.{
  KnowledgeBase, Reason, restore_failed, backup_not_ready, backup_not_found,
  knowledge_base_not_found,
}
use kuberag.Api.Snapshots.{Backup, Restore}
use kuberag.Api.Jobs.{Job}
use kuberag.Cluster.{
  Server, Pass, M, call, attempt, time_now, fetch_key, fetch_job, Got, found, refused, is_not_found,
  answer, answer-found, get_job, read_backup, read_knowledge_base, Outcome,
}
use kuberag.Decisions.{is_complete, is_failed}
use kuberag.History.{jobs_created}
use kuberag.Restore.{
  is_restorable, store, fail, conclude, collect, forget_job, watch, work_on, fetch_knowledge_base,
  fetch_backup, into_knowledge_base, use_restorable, from_backup, proceed, put_finalizer, reconcile,
}

module _ (p : Platform) (s : Server) where
  -- A step that creates no Job.
  abbrev Idle : M Restore Outcome → Type 0
  Idle m = (w : Pass Restore) → jobs_created (m w).1.log ≡ jobs_created w.log

  fail-Idle : (reason : Reason) → Idle (fail p s reason)
  unfolding fail store call
  fail-Idle reason w = ground arith

  conclude-Idle : (job : Text) (r : Option ℕ) → Idle (conclude p s job r)
  unfolding conclude store call attempt time_now
  conclude-Idle job none w = fail-Idle _ w
  conclude-Idle job (some n) w = ground arith

  collect-Idle : (job : Job) → Idle (collect p s job)
  unfolding collect fetch_key
  collect-Idle job w = conclude-Idle job.name _ _ ∙ omega arith

  watch-Idle : (got : Got Job) → Idle (watch p s got)
  unfolding watch forget_job store call
  watch-Idle (refused e) w = ground arith
  watch-Idle (found job) w = elim (Bool-cases (is_failed job)) [
    | inl bad ↦ ground (arith, fail-Idle restore_failed w)
    | inr fine ↦ elim (Bool-cases (is_complete job)) [
      | inl good ↦ rw (fine, good) (collect-Idle job w)
      | inr still ↦ rw (fine, still) refl
    ]
  ]

  -- A step that creates a Job was told that no Job is active.
  work_on-Free :
      (name : Text) (kb : KnowledgeBase) (bkp : Backup) (w : Pass Restore)
      → jobs_created w.log < jobs_created (work_on p s name kb bkp w).1.log
      → name ≡ []
  unfolding work_on fetch_job
  work_on-Free [] kb bkp w more = refl
  work_on-Free (c ∷ name) kb bkp w more =
      absurd (omega (arith, more, watch-Idle _ (record w { log = get_job (c ∷ name) ∷ w.log })))

  into_knowledge_base-Free :
      (bkp : Backup) (got : Got KnowledgeBase) (w : Pass Restore)
      → jobs_created w.log < jobs_created (into_knowledge_base p s bkp got w).1.log
      → w.object.status.active_job ≡ []
  unfolding into_knowledge_base
  into_knowledge_base-Free bkp (found kb) w more = work_on-Free _ kb bkp w more
  into_knowledge_base-Free bkp (refused e) w more = elim (Bool-cases (is_not_found e)) [
    | inl gone ↦ absurd (omega (arith, fail-Idle knowledge_base_not_found w, rw gone at more))
    | inr bad ↦ absurd (omega (arith, rw bad at more))
  ]

  use_restorable-Free :
      (good : Bool) (bkp : Backup) (w : Pass Restore)
      → jobs_created w.log < jobs_created (use_restorable p s good bkp w).1.log
      → (good ≡ true) × (w.object.status.active_job ≡ [])
  unfolding use_restorable fetch_knowledge_base
  use_restorable-Free false bkp w more = absurd (omega (arith, fail-Idle backup_not_ready w))
  use_restorable-Free true bkp w more =
      let name = w.object.spec.knowledge_base_ref in
      let u = record w { log = read_knowledge_base name ∷ w.log } in
      let got = answer s (s.ack w.log (read_knowledge_base name)) (s.knowledge_base w.log name) in
      (refl, into_knowledge_base-Free bkp got u (omega (arith, more)))

  from_backup-Free :
      (got : Got Backup) (w : Pass Restore)
      → jobs_created w.log < jobs_created (from_backup p s got w).1.log
      → (bkp : Backup) × (got ≡ found bkp)
        × (is_restorable bkp ≡ true)
        × (w.object.status.active_job ≡ [])
  unfolding from_backup
  from_backup-Free (found bkp) w more =
      let (good, free) = use_restorable-Free (is_restorable bkp) bkp w more in
      (bkp, refl, good, free)
  from_backup-Free (refused e) w more = elim (Bool-cases (is_not_found e)) [
    | inl gone ↦ absurd (omega (arith, fail-Idle backup_not_found w, rw gone at more))
    | inr bad ↦ absurd (omega (arith, rw bad at more))
  ]

  -- A pass creates no Job, or goes on to the Backup.
  reconcile_or_proceed :
      (w : Pass Restore)
      → (jobs_created (reconcile p s w).1.log ≡ jobs_created w.log)
        ⊎ (reconcile p s w ≡ proceed p s w)
  unfolding reconcile put_finalizer call
  reconcile_or_proceed w = ground arith

  proceed-Restorable :
      (w : Pass Restore)
      → jobs_created w.log < jobs_created (proceed p s w).1.log
      → (s.ack w.log (read_backup w.object.spec.backup_ref) ≡ none)
        × (is_restorable (s.backup w.log w.object.spec.backup_ref) ≡ true)
        × (w.object.status.active_job ≡ [])
  unfolding proceed fetch_backup
  proceed-Restorable w more =
      let name = w.object.spec.backup_ref in
      let u = record w { log = read_backup name ∷ w.log } in
      let (bkp, got, good, free) = from_backup-Free _ u (omega (arith, more)) in
      let (acked, same) =
        answer-found s (s.ack w.log (read_backup name)) (s.backup w.log name) bkp got in
      (acked, ap is_restorable same ∙ good, free)

  -- A pass that creates a restore Job has read the Backup that the Restore names from the server,
  -- it is Completed and has a location, and no Job of the Restore was active.
  pub reconcile-Restorable :
      (w : Pass Restore)
      → jobs_created w.log < jobs_created (reconcile p s w).1.log
      → (s.ack w.log (read_backup w.object.spec.backup_ref) ≡ none)
        × (is_restorable (s.backup w.log w.object.spec.backup_ref) ≡ true)
        × (w.object.status.active_job ≡ [])
  reconcile-Restorable w more = elim (reconcile_or_proceed w) [
    | inl idle ↦ absurd (omega arith)
    | inr on ↦
        proceed-Restorable w (subst (λ out. jobs_created w.log < jobs_created out.1.log) on more)
  ]
