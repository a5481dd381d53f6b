-- ===== src/Reconcile/Orphans/Tests.antt =====
-- Two passes, over an object whose status is refused in the first.
use kuberag.Prelude.{◌≡◌, refl, Option, none, some, [], arith}
use kuberag.Api.Jobs.{Job}
use kuberag.Cluster.{
  Server, History, Call, ApiError, conflict, already_exists, create_job, update_status, Outcome,
  done,
}
use kuberag.History.{Takes, Accepted}
use kuberag.History.Launches.{active}
use kuberag.Reconcile.{reconcile}
use kuberag.Reconcile.Orphans.{reconcile-orphans}
use kuberag.Reconcile.Tests.{first_pass, first_pass-IsNew, first_pass-Buildable}
use kuberag.Fixtures.{platform, server}

-- A server that refuses each status, and one that has each Job already.
abbrev refuses_status : History → Call → Option ApiError
refuses_status h (update_status st) = some conflict
refuses_status h c = none

abbrev has_jobs : History → Call → Option ApiError
has_jobs h (create_job made) = some already_exists
has_jobs h c = none

abbrev unsaving : Server
unsaving = record server { ack = refuses_status }

abbrev holding : Server
holding = record server { ack = has_jobs }

unsaving-Takes : Takes unsaving
unsaving-Takes h (update_status st) o = ground arith
unsaving-Takes h _ o = refl

holding-Takes : Takes holding
holding-Takes h (create_job made) o = ground arith
holding-Takes h _ o = refl

reconcile-orphans_example :
    let first = reconcile platform unsaving first_pass in
    let second = reconcile platform holding (record (first.1) { object = first_pass.object }) in
    (first.0 ≡ Outcome.failed conflict)
    × ((job : Job) × Accepted unsaving (create_job job) first.1.log)
    × (second.0 ≡ done)
    × (active second.1 ≡ [])
reconcile-orphans_example =
    reconcile-orphans platform unsaving holding unsaving-Takes holding-Takes conflict
      (λ h job. refl) (λ h st. refl) first_pass refl refl refl first_pass-IsNew
      (first_pass-Buildable _ _) (λ job again h a n. refl)
