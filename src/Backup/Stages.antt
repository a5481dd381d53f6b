-- ===== src/Backup/Stages.antt =====
-- Every pass of the Backup controller, at any server, is a step of the life of a Backup.
use kuberag.Prelude.{
  Bool-cases, Text, ◌≡◌, refl, sym, ap, ◌∙◌, ◌⊎◌, inl, inr, false, Option, none, some, [], ◌∷◌,
  arith,
}
use mathlib.Core.Path.{subst}
use kuberag.Platform.{Platform}
use kuberag.Api.KnowledgeBase.{KnowledgeBase, Reason, result_read_failed, backup_failed}
use kuberag.Api.Snapshots.{Backup, BackupResult, SnapshotPhase}
use kuberag.Api.Jobs.{Job}
use kuberag.Cluster.{
  Server, History, Pass, call, attempt, time_now, fetch_key, fetch_job, Got, found, refused,
  ApiError, Outcome, is_not_found, ignore_already_exists,
}
use kuberag.Decisions.{is_complete, is_failed}
use kuberag.Stages.{
  Stage, waiting, working, ended, job_stage, stage_of, Moves, stays, starts, loses, succeeds, fails,
  rejects, Reach, here, next,
}
use kuberag.Backup.{
  is_terminal, enter, complete, with_active, store, fail, refuse, launch, start, conclude, collect,
  forget_job, watch, work_on, advance, fetch_knowledge_base, proceed, put_finalizer, reconcile,
}

abbrev pub stage : Backup → Stage
stage bkp = stage_of bkp.status.phase bkp.status.active_job

-- The stage of a status that has not ended is its Job.
pub open_stage :
    (phase : SnapshotPhase) (job : Text)
    → is_terminal phase ≡ false
    → stage_of phase job ≡ job_stage job
unfolding is_terminal
open_stage phase job h = ground arith

module _ (p : Platform) (s : Server) where
  -- A step whose object ends in the stage given.
  abbrev Into : Stage → Outcome × Pass Backup → Type 0
  Into b out = stage out.1.object ≡ b

  store-stage : (out : Outcome) (w : Pass Backup) → Into (stage w.object) (store p s out w)
  unfolding store call
  store-stage out w = ground arith

  fail-stage : (reason : Reason) (w : Pass Backup) → Into (ended false) (fail p s reason w)
  unfolding fail enter store call
  fail-stage reason w = ground arith

  -- The stage is as it was, or failure.
  refuse-stage :
      (e : ApiError) (w : Pass Backup)
      → Into (stage w.object) (refuse p s e w) ⊎ Into (ended false) (refuse p s e w)
  unfolding refuse fail enter store call
  refuse-stage e w = ground arith

  launch-stage :
      (job : Job) (spec : Text) (w : Pass Backup)
      → Into (stage w.object) (launch p s (some (job, spec)) w)
        ⊎ (Into (ended false) (launch p s (some (job, spec)) w)
            ⊎ Into (job_stage job.name) (launch p s (some (job, spec)) w))
  unfolding launch call ignore_already_exists enter with_active store refuse fail
  launch-stage job spec w = ground arith

  -- A step of the life, from the stage of a pass that has not ended.
  abbrev MovesBy : Stage → Outcome × Pass Backup → Type 0
  MovesBy a out = Moves a (stage out.1.object)

  launch-Moves :
      (built : Option (Job × Text)) (w : Pass Backup)
      → stage w.object ≡ waiting
      → MovesBy waiting (launch p s built w)
  launch-Moves none w idle = stays (unfold launch in idle)
  launch-Moves (some (job, spec)) w idle = elim (launch-stage job spec w) [
    | inl same ↦ stays (same ∙ idle)
    | inr (inl over) ↦ rejects refl over
    | inr (inr on) ↦ starts job.name refl on
  ]

  start-Moves :
      (kb : KnowledgeBase) (w : Pass Backup)
      → stage w.object ≡ waiting
      → MovesBy waiting (start p s kb w)
  unfolding start time_now
  start-Moves kb w idle = launch-Moves _ _ idle

  conclude-Moves :
      (name job : Text) (result : Option BackupResult) (w : Pass Backup)
      → MovesBy (working name) (conclude p s job result w)
  unfolding conclude
  conclude-Moves name job none w = fails name refl (fail-stage result_read_failed w)
  conclude-Moves name job (some r) w =
      succeeds name refl (unfold time_now complete enter attempt store call in ground arith)

  watch_found-Moves :
      (name : Text) (job : Job) (w : Pass Backup)
      → stage w.object ≡ working name
      → MovesBy (working name) (watch p s (found job) w)
  unfolding watch
  watch_found-Moves name job w on = elim (Bool-cases (is_failed job)) [
    | inl bad ↦ elim (Bool-cases (is_complete job)) [
      | inl good ↦ rw (bad, good, watch) (fails name refl (fail-stage backup_failed w))
      | inr still ↦ rw (bad, still, watch) (fails name refl (fail-stage backup_failed w))
    ]
    | inr fine ↦ elim (Bool-cases (is_complete job)) [
      | inl good ↦
          rw (fine, good, watch) (unfold collect fetch_key in conclude-Moves name job.name _ _)
      | inr still ↦ rw (fine, still, watch) (stays on)
    ]
  ]

  forget_job-stage :
      (w : Pass Backup)
      → is_terminal w.object.status.phase ≡ false
      → Into waiting (forget_job p s w)
  unfolding forget_job with_active store call is_terminal
  forget_job-stage w still = ground arith

  watch-Moves :
      (name : Text) (got : Got Job) (w : Pass Backup)
      → stage w.object ≡ working name
      → is_terminal w.object.status.phase ≡ false
      → MovesBy (working name) (watch p s got w)
  unfolding watch
  watch-Moves name (found job) w on still = watch_found-Moves name job w on
  watch-Moves name (refused e) w on still = elim (Bool-cases (is_not_found e)) [
    | inl gone ↦ rw (gone, watch) (loses name refl (forget_job-stage w still))
    | inr other ↦ rw (other, watch) (stays on)
  ]

  work_on-Moves :
      (name : Text) (kb : KnowledgeBase) (w : Pass Backup)
      → w.object.status.active_job ≡ name
      → is_terminal w.object.status.phase ≡ false
      → MovesBy (job_stage name) (work_on p s name kb w)
  unfolding work_on fetch_job
  work_on-Moves [] kb w e still =
      start-Moves kb w (open_stage w.object.status.phase _ still ∙ ap job_stage e)
  work_on-Moves (c ∷ name) kb w e still =
      watch-Moves (c ∷ name) _ _ (open_stage w.object.status.phase _ still ∙ ap job_stage e) still

  failing-Moves :
      (name : Text) (reason : Reason) (w : Pass Backup)
      → MovesBy (job_stage name) (fail p s reason w)
  failing-Moves [] reason w = rejects refl (fail-stage reason w)
  failing-Moves (c ∷ name) reason w = fails (c ∷ name) refl (fail-stage reason w)

  advance-Moves :
      (got : Got KnowledgeBase) (w : Pass Backup)
      → is_terminal w.object.status.phase ≡ false
      → MovesBy (job_stage w.object.status.active_job) (advance p s got w)
  unfolding advance
  advance-Moves (found kb) w still = work_on-Moves w.object.status.active_job kb w refl still
  advance-Moves (refused e) w still = elim (Bool-cases (is_not_found e)) [
    | inl gone ↦ rw (gone, advance) (failing-Moves w.object.status.active_job _ w)
    | inr other ↦ rw (other, advance) (stays (open_stage w.object.status.phase _ still))
  ]

  proceed-Moves :
      (w : Pass Backup)
      → is_terminal w.object.status.phase ≡ false
      → MovesBy (stage w.object) (proceed p s w)
  unfolding proceed fetch_knowledge_base
  proceed-Moves w still =
      subst (λ a. MovesBy a (proceed p s w)) (sym (open_stage w.object.status.phase _ still))
        (advance-Moves _ _ still)

  reconcile_or_proceed :
      (w : Pass Backup)
      → (stage (reconcile p s w).1.object ≡ stage w.object)
        ⊎ ((is_terminal w.object.status.phase ≡ false) × (reconcile p s w ≡ proceed p s w))
  unfolding reconcile put_finalizer call
  reconcile_or_proceed w = ground arith

  pub reconcile-Moves :
      (w : Pass Backup) → Moves (stage w.object) (stage (reconcile p s w).1.object)
  reconcile-Moves w = elim (reconcile_or_proceed w) [
    | inl same ↦ stays same
    | inr (still, on) ↦ subst (MovesBy (stage w.object)) (sym on) (proceed-Moves w still)
  ]

-- What may become of a Backup: passes, each at a server and a history of its own, and changes by other
-- clients, which leave the status alone. A pass whose status is not taken leaves it as it was.
pub data Life (p : Platform) (b : Backup) : Backup → Type 0 where
  born : Life p b b
  passed :
      {c : Backup}
      → Life p b c
      → (s : Server) (h : History)
      → Life p b (reconcile p s (record { object = c; log = h })).1.object
  edited : {c : Backup} → Life p b c → (d : Backup) → d.status ≡ c.status → Life p b d

-- The controller refines the life of a Backup: whatever servers answer and other clients change, the
-- stages that a Backup goes through are steps from waiting to one Job, from there back or to an end,
-- with success from a Job only, and nothing follows an end.
pub Life-Reach : (p : Platform) (b : Backup) {c : Backup} → Life p b c → Reach (stage b) (stage c)
Life-Reach p b born = here
Life-Reach p b (passed l s h) = next (Life-Reach p b l) (reconcile-Moves p s _)
Life-Reach p b (edited l d e) =
    next (Life-Reach p b l) (stays (ap (λ st. stage_of st.phase st.active_job) e))
