-- ===== src/Restore/Stages.antt =====
-- Every pass of the Restore controller, at any server, is a step of the life of a Restore.
use kuberag.Prelude.{
  Bool-cases, Text, ℕ, ◌≡◌, refl, sym, ap, ◌∙◌, ◌⊎◌, inl, inr, Bool, true, false, Option, none,
  some, [], ◌∷◌, arith,
}
use mathlib.Core.Path.{subst}
use kuberag.Platform.{Platform}
use kuberag.Api.KnowledgeBase.{KnowledgeBase, Reason, result_read_failed, restore_failed}
use kuberag.Api.Snapshots.{Backup, Restore}
use kuberag.Api.Jobs.{Job}
use kuberag.Cluster.{
  M, Server, History, Pass, call, attempt, time_now, fetch_key, fetch_job, Got, found, refused,
  ApiError, Outcome, is_not_found, ignore_already_exists,
}
use kuberag.Decisions.{is_complete, is_failed}
use kuberag.Backup.{is_terminal}
use kuberag.Backup.Stages.{open_stage}
use kuberag.Stages.{
  Stage, waiting, working, ended, job_stage, stage_of, Moves, stays, starts, loses, succeeds, fails,
  rejects, Reach, here, next,
}
use kuberag.Restore.{
  enter, complete, with_active, store, fail, refuse, launch, start, conclude, collect, forget_job,
  watch, work_on, into_knowledge_base, use_restorable, from_backup, fetch_backup,
  fetch_knowledge_base, proceed, put_finalizer, reconcile,
}

abbrev pub stage : Restore → Stage
stage rest = stage_of rest.status.phase rest.status.active_job

module _ (p : Platform) (s : Server) where
  -- A step whose object ends in the stage given.
  abbrev Into : Stage → Outcome × Pass Restore → Type 0
  Into b out = stage out.1.object ≡ b

  store-stage : (out : Outcome) (w : Pass Restore) → Into (stage w.object) (store p s out w)
  unfolding store call
  store-stage out w = ground arith

  fail-stage : (reason : Reason) (w : Pass Restore) → Into (ended false) (fail p s reason w)
  unfolding fail enter store call
  fail-stage reason w = ground arith

  -- The stage is as it was, or failure.
  refuse-stage :
      (e : ApiError) (w : Pass Restore)
      → Into (stage w.object) (refuse p s e w) ⊎ Into (ended false) (refuse p s e w)
  unfolding refuse fail enter store call
  refuse-stage e w = ground arith

  launch-stage :
      (job : Job) (spec : Text) (w : Pass Restore)
      → Into (stage w.object) (launch p s (some (job, spec)) w)
        ⊎ (Into (ended false) (launch p s (some (job, spec)) w)
            ⊎ Into (job_stage job.name) (launch p s (some (job, spec)) w))
  unfolding launch call ignore_already_exists enter with_active store refuse fail
  launch-stage job spec w = ground arith

  -- A step of the life, from the stage of a pass that has not ended.
  abbrev MovesBy : Stage → Outcome × Pass Restore → Type 0
  MovesBy a out = Moves a (stage out.1.object)

  launch-Moves :
      (built : Option (Job × Text)) (w : Pass Restore)
      → stage w.object ≡ waiting
      → MovesBy waiting (launch p s built w)
  launch-Moves none w idle = stays (unfold launch in idle)
  launch-Moves (some (job, spec)) w idle = elim (launch-stage job spec w) [
    | inl same ↦ stays (same ∙ idle)
    | inr (inl over) ↦ rejects refl over
    | inr (inr on) ↦ starts job.name refl on
  ]

  start-Moves :
      (kb : KnowledgeBase) (bkp : Backup) (w : Pass Restore)
      → stage w.object ≡ waiting
      → MovesBy waiting (start p s kb bkp w)
  unfolding start time_now
  start-Moves kb bkp w idle = launch-Moves _ _ idle

  conclude-Moves :
      (name job : Text) (result : Option ℕ) (w : Pass Restore)
      → MovesBy (working name) (conclude p s job result w)
  unfolding conclude
  conclude-Moves name job none w = fails name refl (fail-stage result_read_failed w)
  conclude-Moves name job (some r) w =
      succeeds name refl (unfold time_now complete enter attempt store call in ground arith)

  watch_found-Moves :
      (name : Text) (job : Job) (w : Pass Restore)
      → stage w.object ≡ working name
      → MovesBy (working name) (watch p s (found job) w)
  unfolding watch
  watch_found-Moves name job w on = elim (Bool-cases (is_failed job)) [
    | inl bad ↦ elim (Bool-cases (is_complete job)) [
      | inl good ↦ rw (bad, good, watch) (fails name refl (fail-stage restore_failed w))
      | inr still ↦ rw (bad, still, watch) (fails name refl (fail-stage restore_failed w))
    ]
    | inr fine ↦ elim (Bool-cases (is_complete job)) [
      | inl good ↦
          rw (fine, good, watch) (unfold collect fetch_key in conclude-Moves name job.name _ _)
      | inr still ↦ rw (fine, still, watch) (stays on)
    ]
  ]

  forget_job-stage :
      (w : Pass Restore)
      → is_terminal w.object.status.phase ≡ false
      → Into waiting (forget_job p s w)
  unfolding forget_job with_active store call
  forget_job-stage w still = ground (arith, open_stage w.object.status.phase [] still)

  watch-Moves :
      (name : Text) (got : Got Job) (w : Pass Restore)
      → stage w.object ≡ working name
      → is_terminal w.object.status.phase ≡ false
      → MovesBy (working name) (watch p s got w)
  unfolding watch
  watch-Moves name (found job) w on still = watch_found-Moves name job w on
  watch-Moves name (refused e) w on still = elim (Bool-cases (is_not_found e)) [
    | inl gone ↦ rw (gone, watch) (loses name refl (forget_job-stage w still))
    | inr other ↦ rw (other, watch) (stays on)
  ]

  work_on-Moves :
      (name : Text) (kb : KnowledgeBase) (bkp : Backup) (w : Pass Restore)
      → w.object.status.active_job ≡ name
      → is_terminal w.object.status.phase ≡ false
      → MovesBy (job_stage name) (work_on p s name kb bkp w)
  unfolding work_on fetch_job
  work_on-Moves [] kb bkp w e still =
      start-Moves kb bkp w (open_stage w.object.status.phase _ still ∙ ap job_stage e)
  work_on-Moves (c ∷ name) kb bkp w e still =
      watch-Moves (c ∷ name) _ _ (open_stage w.object.status.phase _ still ∙ ap job_stage e) still

  failing-Moves :
      (name : Text) (reason : Reason) (w : Pass Restore)
      → MovesBy (job_stage name) (fail p s reason w)
  failing-Moves [] reason w = rejects refl (fail-stage reason w)
  failing-Moves (c ∷ name) reason w = fails (c ∷ name) refl (fail-stage reason w)

  -- A step that works on a status that has not ended.
  abbrev OpenMoves : M Restore Outcome → Type 0
  OpenMoves m =
      (w : Pass Restore)
      → is_terminal w.object.status.phase ≡ false
      → MovesBy (job_stage w.object.status.active_job) (m w)

  into_knowledge_base-Moves :
      (bkp : Backup) (got : Got KnowledgeBase) → OpenMoves (into_knowledge_base p s bkp got)
  unfolding into_knowledge_base
  into_knowledge_base-Moves bkp (found kb) w still =
      work_on-Moves w.object.status.active_job kb bkp w refl still
  into_knowledge_base-Moves bkp (refused e) w still = elim (Bool-cases (is_not_found e)) [
    | inl gone ↦ rw (gone) (failing-Moves w.object.status.active_job _ w)
    | inr other ↦ rw (other) (stays (open_stage w.object.status.phase _ still))
  ]

  use_restorable-Moves : (ok : Bool) (bkp : Backup) → OpenMoves (use_restorable p s ok bkp)
  unfolding use_restorable fetch_knowledge_base
  use_restorable-Moves false bkp w still = failing-Moves w.object.status.active_job _ w
  use_restorable-Moves true bkp w still = into_knowledge_base-Moves bkp _ _ still

  from_backup-Moves : (got : Got Backup) → OpenMoves (from_backup p s got)
  unfolding from_backup
  from_backup-Moves (found bkp) w still = use_restorable-Moves _ bkp w still
  from_backup-Moves (refused e) w still = elim (Bool-cases (is_not_found e)) [
    | inl gone ↦ rw (gone) (failing-Moves w.object.status.active_job _ w)
    | inr other ↦ rw (other) (stays (open_stage w.object.status.phase _ still))
  ]

  proceed-Moves :
      (w : Pass Restore)
      → is_terminal w.object.status.phase ≡ false
      → MovesBy (stage w.object) (proceed p s w)
  unfolding proceed fetch_backup
  proceed-Moves w still =
      subst (λ a. MovesBy a (proceed p s w)) (sym (open_stage w.object.status.phase _ still))
        (from_backup-Moves _ _ still)

  reconcile_or_proceed :
      (w : Pass Restore)
      → (stage (reconcile p s w).1.object ≡ stage w.object)
        ⊎ ((is_terminal w.object.status.phase ≡ false) × (reconcile p s w ≡ proceed p s w))
  unfolding reconcile put_finalizer call
  reconcile_or_proceed w = ground arith

  pub reconcile-Moves :
      (w : Pass Restore) → Moves (stage w.object) (stage (reconcile p s w).1.object)
  reconcile-Moves w = elim (reconcile_or_proceed w) [
    | inl same ↦ stays same
    | inr (still, on) ↦ subst (MovesBy (stage w.object)) (sym on) (proceed-Moves w still)
  ]

-- What may become of a Restore: passes, each at a server and a history of its own, and changes by other
-- clients, which leave the status alone. A pass whose status is not taken leaves it as it was.
pub data RestoreLife (p : Platform) (b : Restore) : Restore → Type 0 where
  born : RestoreLife p b b
  passed :
      {c : Restore}
      → RestoreLife p b c
      → (s : Server) (h : History)
      → RestoreLife p b (reconcile p s (record { object = c; log = h })).1.object
  edited :
      {c : Restore} → RestoreLife p b c → (d : Restore) → d.status ≡ c.status → RestoreLife p b d

-- The controller refines the life of a Restore: whatever servers answer and other clients change, the
-- stages that a Restore goes through are steps from waiting to one Job, from there back or to an end,
-- with success from a Job only, and nothing follows an end.
pub RestoreLife-Reach :
    (p : Platform) (b : Restore) {c : Restore} → RestoreLife p b c → Reach (stage b) (stage c)
RestoreLife-Reach p b born = here
RestoreLife-Reach p b (passed l s h) = next (RestoreLife-Reach p b l) (reconcile-Moves p s _)
RestoreLife-Reach p b (edited l d e) =
    next (RestoreLife-Reach p b l) (stays (ap (λ st. stage_of st.phase st.active_job) e))
