-- ===== src/Deletion/Release.antt =====
-- When a KnowledgeBase that is being deleted is let go.
use kuberag.Prelude.{
  Bool-cases, Text, ◌≡◌, refl, ap, ◌∙◌, inl, inr, Bool, true, false, Option, none, some, ◌∷◌, arith,
}
use kuberag.Platform.{Platform}
use kuberag.Api.KnowledgeBase.{KnowledgeBase}
use kuberag.Api.Jobs.{Job}
use kuberag.Cluster.{
  Server, Pass, get_job, call, attempt, fetch_job, ignore_already_exists, Got, found, refused,
  answer, is_not_found, answer-found,
}
use kuberag.Jobs.{cleanup_job_name}
use kuberag.Secrets.{compute_secrets_hash}
use kuberag.Secrets.Frame.{compute_secrets_hash-Quiet}
use kuberag.Decisions.{is_complete, is_failed}
use kuberag.Deletion.{
  launch_cleanup, start_cleanup, watch_cleanup, launch_built, cleanup_found, delete_if,
  reconcile_delete,
}

module _ (p : Platform) (s : Server) where
  launch_cleanup_keeps :
      (job : Job) (spec : Text) (w : Pass KnowledgeBase)
      → (launch_cleanup p s job spec w).1.object ≡ w.object
  unfolding launch_cleanup call attempt ignore_already_exists
  launch_cleanup_keeps job spec w = ground arith

  launch_built_keeps :
      (built : Option (Job × Text)) (w : Pass KnowledgeBase)
      → (launch_built p s built w).1.object ≡ w.object
  unfolding launch_built
  launch_built_keeps none w = refl
  launch_built_keeps (some (job, spec)) w = launch_cleanup_keeps job spec w

  start_cleanup_keeps : (w : Pass KnowledgeBase) → (start_cleanup p s w).1.object ≡ w.object
  unfolding start_cleanup
  start_cleanup_keeps w =
      launch_built_keeps _ (compute_secrets_hash s p w).1
      ∙ (compute_secrets_hash-Quiet s p w).same_object

  -- The state of the Job that decides, as the server reported it to this pass.
  abbrev pub observed : Pass KnowledgeBase → Job
  observed w = s.job w.log (cleanup_job_name p w.object)

  watch_cleanup-keeps :
      (job : Job) (w : Pass KnowledgeBase)
      → w.object.has_finalizer ≡ true
      → (watch_cleanup p s job w).1.object.has_finalizer ≡ false
      → (is_complete job ≡ true) × (is_failed job ≡ false)
  unfolding watch_cleanup attempt call
  watch_cleanup-keeps job w before after = ground arith

  cleanup_found-keeps :
      (got : Got Job) (w : Pass KnowledgeBase)
      → w.object.has_finalizer ≡ true
      → (cleanup_found p s got w).1.object.has_finalizer ≡ false
      → (job : Job) × (got ≡ found job) × (is_complete job ≡ true) × (is_failed job ≡ false)
  unfolding cleanup_found
  cleanup_found-keeps (found job) w before after =
      let ends = watch_cleanup-keeps job w before after in (job, refl, ends.0, ends.1)
  cleanup_found-keeps (refused e) w before after = elim (Bool-cases (is_not_found e)) [
    | inl missing ↦
        let kept = ap (λ kb. kb.has_finalizer) (start_cleanup_keeps w) ∙ before in
        cc (rw missing at after)
    | inr otherwise ↦ cc (rw otherwise at after)
  ]

  delete_if-releases :
      (b : Bool) (w : Pass KnowledgeBase)
      → w.object.has_finalizer ≡ true
      → b ≡ true
      → (delete_if p s b w.object w).1.object.has_finalizer ≡ false
      → (s.ack w.log (get_job (cleanup_job_name p w.object)) ≡ none)
        × (is_complete (observed w) ≡ true)
        × (is_failed (observed w) ≡ false)
  unfolding delete_if fetch_job
  delete_if-releases true w before on after =
      let name = cleanup_job_name p w.object in
      let u = record w { log = get_job name ∷ w.log } in
      let (job, got, complete, unfailed) =
        cleanup_found-keeps (answer s (s.ack w.log (get_job name)) (observed w)) u before after in
      let (acked, same) = answer-found s (s.ack w.log (get_job name)) (observed w) job got in
      (acked, ap is_complete same ∙ complete, ap is_failed same ∙ unfailed)
  delete_if-releases false w before on after = cc

  -- A KnowledgeBase that has the finalizer loses it only to a cleanup Job that the server knows, that
  -- is complete and that has not failed: the collection is not forgotten while it may still be there.
  pub reconcile_delete-releases :
      (w : Pass KnowledgeBase)
      → w.object.has_finalizer ≡ true
      → (reconcile_delete p s w).1.object.has_finalizer ≡ false
      → (s.ack w.log (get_job (cleanup_job_name p w.object)) ≡ none)
        × (is_complete (observed w) ≡ true)
        × (is_failed (observed w) ≡ false)
  unfolding reconcile_delete
  reconcile_delete-releases w before after =
      delete_if-releases w.object.has_finalizer w before before after
