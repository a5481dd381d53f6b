-- ===== src/Deletion.antt =====
-- internal/controller/deletion_controller.go: the cleanup Job, and the release of the finalizer.
pub mod Release
pub mod Tests
use kuberag.Prelude.{
  if◌then◌else◌, Text, codes, ◌*◌, Bool, true, false, not, ◌&&◌, Option, none, some,
}
use kuberag.Platform.{Platform}
use kuberag.Api.KnowledgeBase.{KnowledgeBase, cleanup, cleanup_failed}
use kuberag.Api.Jobs.{Job}
use kuberag.Names.{spec_config_map_name}
use kuberag.Cluster.{
  ◌>>=◌, ◌>>◌, Server, create_spec_config_map, create_job, delete_job, update_finalizer, event,
  other, M, pure, get, modify, call, attempt, fetch_job, on_error, Outcome, done, requeue_after,
  fails, second, Got, found, refused, is_not_found, ignore_already_exists,
}
use kuberag.Jobs.{cleanup_job_name, build_cleanup_job}
use kuberag.Secrets.{compute_secrets_hash}
use kuberag.Decisions.{is_complete, is_failed}

module _ (p : Platform) (s : Server) where
  launch_cleanup : Job → Text → M KnowledgeBase Outcome
  launch_cleanup job spec = do
    err ← call s (create_spec_config_map (spec_config_map_name p job.name) spec)
    on_error (ignore_already_exists err) fails do
      err ← call s (create_job job)
      on_error (ignore_already_exists err) fails
          do attempt s (event false cleanup); pure (requeue_after (5 * second))

  launch_built : Option (Job × Text) → M KnowledgeBase Outcome
  launch_built none = fails (other (codes "cannot build the cleanup job"))
  launch_built (some (job, spec)) = launch_cleanup job spec

  start_cleanup : M KnowledgeBase Outcome
  start_cleanup = do
    secrets_hash ← compute_secrets_hash s p
    kb ← get
    launch_built (build_cleanup_job p kb secrets_hash)

  retry_cleanup : Job → M KnowledgeBase Outcome
  retry_cleanup job = do
    attempt s (event true cleanup_failed)
    attempt s (delete_job job.name)
    pure (requeue_after (30 * second))

  release : Job → M KnowledgeBase Outcome
  release job = do
    attempt s (delete_job job.name)
    modify (λ kb. record kb { has_finalizer = false })
    err ← call s (update_finalizer false)
    on_error err fails (pure done)

  -- What a cleanup Job that exists leads to.
  watch_cleanup : Job → M KnowledgeBase Outcome
  unfolding retry_cleanup release
  watch_cleanup job =
      if not (is_complete job) && not (is_failed job)
      then pure (requeue_after (5 * second))
      else if is_failed job
      then retry_cleanup job
      else release job

  -- The `switch` on what the read of the cleanup Job returned.
  cleanup_found : Got Job → M KnowledgeBase Outcome
  cleanup_found (refused e) = if is_not_found e then start_cleanup else fails e
  cleanup_found (found job) = watch_cleanup job

  -- The pass over an object that has the finalizer, and over one that has not.
  delete_if : Bool → KnowledgeBase → M KnowledgeBase Outcome
  delete_if false kb = pure done
  delete_if true kb = do got ← fetch_job s (cleanup_job_name p kb); cleanup_found got

  pub reconcile_delete : M KnowledgeBase Outcome
  reconcile_delete = do kb ← get; delete_if kb.has_finalizer kb
