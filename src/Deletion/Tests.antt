-- ===== src/Deletion/Tests.antt =====
-- A KnowledgeBase whose cleanup Job is complete.
use kuberag.Prelude.{◌≡◌, refl, true, false, none, []}
use kuberag.Cluster.{call, attempt, fetch_job, get_job}
use kuberag.Jobs.{cleanup_job_name}
use kuberag.Decisions.{is_complete, is_failed, has_condition}
use kuberag.Deletion.{cleanup_found, watch_cleanup, release, delete_if, reconcile_delete}
use kuberag.Deletion.Release.{reconcile_delete-releases}
use kuberag.Fixtures.{platform, server, pass, job, kb}

released : (reconcile_delete platform server pass).1.object.has_finalizer ≡ false
unfolding reconcile_delete delete_if fetch_job cleanup_found watch_cleanup release call attempt
    is_complete is_failed has_condition
released = refl

reconcile_delete-releases_example :
    (server.ack [] (get_job (cleanup_job_name platform kb)) ≡ none)
    × (is_complete job ≡ true)
    × (is_failed job ≡ false)
reconcile_delete-releases_example = reconcile_delete-releases platform server pass refl released
