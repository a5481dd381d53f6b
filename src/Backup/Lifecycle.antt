-- ===== src/Backup/Lifecycle.antt =====
-- How a Backup comes to be Completed.
use kuberag.Prelude.{
  Bool-cases, Text, codes, ◌≡◌, refl, sym, ap, ◌∙◌, ◌≢◌, ◌⊎◌, inl, inr, true, false, Option, none,
  some, [], ◌∷◌, arith,
}
use mathlib.Core.Path.{subst}
use kuberag.Platform.{Platform}
use kuberag.Api.KnowledgeBase.{KnowledgeBase, result_read_failed, backup_failed, Reason}
use kuberag.Api.Snapshots.{Backup, completed, BackupResult}
use kuberag.Api.Jobs.{Job}
use kuberag.Names.{result_config_map_name}
use kuberag.Cluster.{
  Server, Pass, call, attempt, time_now, fetch_key, fetch_job, Got, found, refused, ApiError,
  History, ignore_already_exists, get_job, answer, answer-found, get_config_map,
  read_knowledge_base, Outcome,
}
use kuberag.Decisions.{is_complete, is_failed}
use kuberag.Backup.{
  enter, complete, with_active, parse_result, store, fail, refuse, launch, start, conclude, collect,
  forget_job, watch, work_on, advance, fetch_knowledge_base, proceed, put_finalizer, reconcile,
}

module _ (p : Platform) (s : Server) where
  -- A step that does not complete the Backup.
  abbrev pub Unfinished : (Pass Backup → Outcome × Pass Backup) → Type 0
  Unfinished m =
      (w : Pass Backup)
      → w.object.status.phase ≢ completed
      → (m w).1.object.status.phase ≢ completed

  store-Unfinished : (out : Outcome) → Unfinished (store p s out)
  unfolding store call
  store-Unfinished out w before = ground arith

  pub fail-Unfinished : (reason : Reason) → Unfinished (fail p s reason)
  unfolding fail enter store call
  fail-Unfinished reason w before = ground arith

  refuse-Unfinished : (e : ApiError) → Unfinished (refuse p s e)
  unfolding refuse fail enter store call
  refuse-Unfinished e w before = ground arith

  launch-Unfinished : (built : Option (Job × Text)) → Unfinished (launch p s built)
  unfolding launch call ignore_already_exists enter with_active store refuse fail
  launch-Unfinished none w before = before
  launch-Unfinished (some (job, spec)) w before = ground arith

  pub start-Unfinished : (kb : KnowledgeBase) → Unfinished (start p s kb)
  unfolding start time_now
  start-Unfinished kb w before = launch-Unfinished _ _ before

  -- What a completed Backup has taken over from a result.
  abbrev Took : Backup → BackupResult → Type 0
  Took bkp r =
      (bkp.status.location ≡ r.location)
      × (bkp.status.total_points ≡ r.total_points)
      × (bkp.status.size_bytes ≡ r.size_bytes)

  conclude-Took :
      (job : Text) (result : Option BackupResult) (w : Pass Backup)
      → w.object.status.phase ≢ completed
      → (conclude p s job result w).1.object.status.phase ≡ completed
      → (r : BackupResult) × (result ≡ some r) × Took (conclude p s job result w).1.object r
  unfolding conclude
  conclude-Took job none w before after = absurd (fail-Unfinished result_read_failed w before after)
  conclude-Took job (some r) w before after =
      (r, refl, unfold time_now complete enter attempt store call in ground arith)

  -- The result of a Job, as the server reports it at a point of the history.
  abbrev pub reported : History → Text → Option BackupResult
  reported h job =
      let name = result_config_map_name p job in
      parse_result p.backup_result
        (answer s (s.ack h (get_config_map name)) (s.config_map h name (codes "result.json")))

  -- What a Backup completes on: a Job that is there, is complete and has not failed, and its result.
  abbrev pub Completes : History → Text → Backup → Type 0
  Completes h name bkp =
      (s.ack h (get_job name) ≡ none)
      × (is_complete (s.job h name) ≡ true)
      × (is_failed (s.job h name) ≡ false)
      × (r : BackupResult) × (reported (get_job name ∷ h) (s.job h name).name ≡ some r)
      × Took bkp r

  watch_found :
      (job : Job) (w : Pass Backup)
      → w.object.status.phase ≢ completed
      → (watch p s (found job) w).1.object.status.phase ≡ completed
      → (is_complete job ≡ true)
        × (is_failed job ≡ false)
        × (r : BackupResult) × (reported w.log job.name ≡ some r)
        × Took (watch p s (found job) w).1.object r
  unfolding watch
  watch_found job w before after = elim (Bool-cases (is_failed job)) [
    | inl bad ↦ elim (Bool-cases (is_complete job)) [
      | inl good ↦ absurd (fail-Unfinished backup_failed w before (rw (bad, good) at after))
      | inr still ↦ absurd (fail-Unfinished backup_failed w before (rw (bad, still) at after))
    ]
    | inr fine ↦ elim (Bool-cases (is_complete job)) [
      | inl good ↦
          rw (fine, good)
            (unfold collect fetch_key in
              let (r, read, took) = conclude-Took job.name _ _ before (rw (fine, good) at after) in
              (refl, refl, r, read, took))
      | inr still ↦ absurd (before (rw (fine, still) at after))
    ]
  ]

  watch-Completes :
      (got : Got Job) (w : Pass Backup)
      → w.object.status.phase ≢ completed
      → (watch p s got w).1.object.status.phase ≡ completed
      → (job : Job) × (got ≡ found job)
        × (is_complete job ≡ true)
        × (is_failed job ≡ false)
        × (r : BackupResult) × (reported w.log job.name ≡ some r)
        × Took (watch p s got w).1.object r
  watch-Completes (found job) w before after =
      let (good, fine, r, read, took) = watch_found job w before after in
      (job, refl, good, fine, r, read, took)
  watch-Completes (refused e) w before after = absurd (gone after)
    where
      gone : (watch p s (refused e) w).1.object.status.phase ≢ completed
      gone = unfold watch forget_job with_active store call in ground arith

  work_on-Completes :
      (name : Text) (kb : KnowledgeBase) (w : Pass Backup)
      → w.object.status.phase ≢ completed
      → (work_on p s name kb w).1.object.status.phase ≡ completed
      → Completes w.log name (work_on p s name kb w).1.object
  unfolding work_on fetch_job
  work_on-Completes [] kb w before after = absurd (start-Unfinished kb w before after)
  work_on-Completes (c ∷ name) kb w before after =
      let id = c ∷ name in
      let u = record w { log = get_job id ∷ w.log } in
      let a = answer s (s.ack w.log (get_job id)) (s.job w.log id) in
      let (job, got, good, fine, r, read, took) = watch-Completes a u before after in
      let (acked, same) = answer-found s (s.ack w.log (get_job id)) (s.job w.log id) job got in
      (
        acked,
        ap is_complete same ∙ good,
        ap is_failed same ∙ fine,
        r,
        ap (λ j. reported (get_job id ∷ w.log) j.name) same ∙ read,
        took,
      )

  advance-Completes :
      (got : Got KnowledgeBase) (w : Pass Backup)
      → w.object.status.phase ≢ completed
      → (advance p s got w).1.object.status.phase ≡ completed
      → Completes w.log w.object.status.active_job (advance p s got w).1.object
  unfolding advance
  advance-Completes (found kb) w before after =
      work_on-Completes w.object.status.active_job kb w before after
  advance-Completes (refused e) w before after = absurd (missing after)
    where
      missing : (advance p s (refused e) w).1.object.status.phase ≢ completed
      missing = unfold fail enter store call in ground arith

  -- A pass leaves the phase alone, or goes on to the KnowledgeBase.
  pub reconcile_or_proceed :
      (w : Pass Backup)
      → ((reconcile p s w).1.object.status.phase ≡ w.object.status.phase)
        ⊎ (reconcile p s w ≡ proceed p s w)
  unfolding reconcile put_finalizer call
  reconcile_or_proceed w = ground arith

  proceed-Completes :
      (w : Pass Backup)
      → w.object.status.phase ≢ completed
      → (proceed p s w).1.object.status.phase ≡ completed
      → Completes
          (read_knowledge_base w.object.spec.knowledge_base_ref ∷ w.log)
          w.object.status.active_job
          (proceed p s w).1.object
  unfolding proceed fetch_knowledge_base
  proceed-Completes w before after = advance-Completes _ _ before after

  -- A Backup that is not Completed before a pass and is after it was waiting for a Job that the
  -- server knows, that is complete and that has not failed; the Job's result was read and parsed,
  -- and the location, the number of points and the size are the result's.
  pub reconcile-Completes :
      (w : Pass Backup)
      → w.object.status.phase ≢ completed
      → (reconcile p s w).1.object.status.phase ≡ completed
      → Completes
          (read_knowledge_base w.object.spec.knowledge_base_ref ∷ w.log)
          w.object.status.active_job
          (reconcile p s w).1.object
  reconcile-Completes w before after = elim (reconcile_or_proceed w) [
    | inl same ↦ absurd (before (sym same ∙ after))
    | inr on ↦
        subst
          (λ out.
            Completes (read_knowledge_base w.object.spec.knowledge_base_ref ∷ w.log)
              w.object.status.active_job out.1.object)
          (sym on)
          (proceed-Completes w before (sym (ap (λ out. out.1.object.status.phase) on) ∙ after))
  ]
