-- ===== src/Reconcile/Flight/Tests.antt =====
-- A pass over a KnowledgeBase whose Job is gone.
use kuberag.Prelude.{Text, codes, refl, true, Option, none, some, []}
use kuberag.Api.KnowledgeBase.{KnowledgeBase}
use kuberag.Api.Jobs.{Job}
use kuberag.Cluster.{Server, History, Call, Pass, ApiError, not_found, get_job}
use kuberag.Reconcile.{reconcile}
use kuberag.Reconcile.Deciding.{SingleFlight}
use kuberag.Reconcile.Flight.{reconcile-SingleFlight}
use kuberag.Fixtures.{platform, server, kb}

-- A server that knows no Job.
abbrev forgets : History → Call → Option ApiError
forgets h (get_job name) = some not_found
forgets h c = none

abbrev read_by_name : History → Text → Job
read_by_name h name = record (server.job h name) { name = name }

abbrev forgetful : Server
forgetful = record server { ack = forgets; job = read_by_name }

abbrev pub with_job : Text → Pass KnowledgeBase
with_job name = record {
  object = record kb { has_finalizer = true; status = record (kb.status) { active_job = name } };
  log = [];
}

reconcile-SingleFlight_example :
    SingleFlight forgetful
      (with_job (codes "docs-ingest-r1"))
      (reconcile platform forgetful (with_job (codes "docs-ingest-r1"))).1
reconcile-SingleFlight_example =
    reconcile-SingleFlight platform forgetful (λ h name. refl) (with_job (codes "docs-ingest-r1"))
      refl
