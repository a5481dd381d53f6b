-- ===== src/Reconcile/Tests.antt =====
-- The passes of an ingestion: its start, its end, and its loss.
use kuberag.Prelude.{
  is_empty, text_eq, Text, codes, ◌*◌, ◌≡◌, refl, true, false, none, some, [], ◌++◌,
}
use kuberag.Api.KnowledgeBase.{KnowledgeBase, ChunkingSpec}
use kuberag.Api.Jobs.{Job}
use kuberag.Cluster.{Server, Pass, requeue_after, second, minute}
use kuberag.History.Launches.{active}
use kuberag.Reconcile.{reconcile}
use kuberag.Decisions.{
  corpus_hash, is_active_job_timed_out, is_complete, is_failed, has_condition,
  spec_config_too_large_unchanged,
}
use kuberag.Jobs.{build_ingest_job, spec_config_map_size_ok}
use kuberag.Pods.{worker_pod, pod_of, resource_requirements, scratch_volume}
use kuberag.Ingestion.Success.{Begins}
use kuberag.Reconcile.Progress.{IsNew, Buildable, reconcile-Begins}
use kuberag.Reconcile.Readiness.{Finishes, reconcile-Readies}
use kuberag.Names.{hex_prefix}
use kuberag.Secrets.{compute_secrets_hash}
use kuberag.Ingestion.Conclusion.{Settles, HasSucceeded}
use kuberag.Reconcile.Current.{IsCurrent}
use kuberag.Reconcile.Conclusion.{reconcile-Settles}
use kuberag.Reconcile.Discarding.{GivesUp, reconcile-GivesUp}
use kuberag.Fixtures.{platform, server, kb, job, ingest_result}
use kuberag.Reconcile.Flight.Tests.{with_job}

-- A KnowledgeBase that was never indexed.
abbrev pub first_pass : Pass KnowledgeBase
first_pass = record {
  object = record kb {
    has_finalizer = true;
    status = record (kb.status) {
      active_job = [];
      observed_spec_hash = [];
      last_failure_time = none;
      conditions = [];
    };
  };
  log = [];
}

pub first_pass-Buildable :
    (hash : Text) (eff : ChunkingSpec) → Buildable platform first_pass.object hash eff
unfolding build_ingest_job spec_config_map_size_ok worker_pod pod_of resource_requirements
    scratch_volume
first_pass-Buildable hash eff st secrets_hash mode = record {
  job = _;
  spec = _;
  built = refl;
  fits = refl;
}

pub first_pass-IsNew : IsNew platform first_pass.object
unfolding spec_config_too_large_unchanged
first_pass-IsNew = record { idle = refl; unindexed = refl; unfailed = refl; fits = refl }

-- The digest of `platform` is the same for all credentials.
credentials :
    (s : Server) (w : Pass KnowledgeBase)
    → (compute_secrets_hash s platform w).0 ≡ hex_prefix platform 4 []
unfolding compute_secrets_hash hex_prefix
credentials s w = refl

reconcile-Begins_example :
    Begins server
      (corpus_hash platform first_pass.object)
      (hex_prefix platform 4 [])
      first_pass.object
      (reconcile platform server first_pass)
reconcile-Begins_example =
    reconcile-Begins platform server (λ h c. refl) first_pass (hex_prefix platform 4 []) refl refl
      refl (λ h. credentials _ _) first_pass-IsNew (first_pass-Buildable _ _)

-- Its ingestion Job, made for the hashes as they are, has succeeded.
abbrev done_job : Job
done_job = record job {
  labels = record (job.labels) {
    spec_hash = corpus_hash platform kb;
    secrets_hash = hex_prefix platform 4 [];
  };
}

abbrev finished : Server
finished = record server { job = λ h name. done_job }

filled_hash : is_empty (corpus_hash platform (with_job done_job.name).object) ≡ false
unfolding corpus_hash hex_prefix
filled_hash = refl

done_job-HasSucceeded : HasSucceeded platform finished done_job ingest_result
unfolding is_complete is_failed has_condition
done_job-HasSucceeded = record {
  known = λ h. refl;
  type = refl;
  complete = refl;
  unfailed = refl;
  text = codes "{}";
  read = λ h. refl;
  parsed = refl;
}

done_job-IsCurrent :
    IsCurrent finished done_job false
      (corpus_hash platform (with_job done_job.name).object)
      (hex_prefix platform 4 [])
      (with_job done_job.name).object
unfolding is_active_job_timed_out corpus_hash
done_job-IsCurrent = record { active = refl; spec = refl; secrets = refl; timed = λ h. refl }

reconcile-Settles_example :
    Settles finished done_job.name
      (corpus_hash platform (with_job done_job.name).object)
      ingest_result
      (reconcile platform finished (with_job done_job.name))
reconcile-Settles_example =
    reconcile-Settles platform finished (λ h c. refl) (with_job done_job.name) done_job
      (hex_prefix platform 4 []) ingest_result refl refl refl (λ h. credentials _ _) filled_hash
      refl done_job-HasSucceeded done_job-IsCurrent

-- It has succeeded, but the pass comes hours later.
abbrev returned : Server
returned = record finished { now = λ h. 20000 * second }

abbrev overdue : Pass KnowledgeBase
overdue = record {
  object = record kb {
    has_finalizer = true;
    status = record (kb.status) { active_job = done_job.name; active_job_started_at = some second };
  };
  log = [];
}

overdue-IsCurrent :
    IsCurrent returned done_job true
      (corpus_hash platform overdue.object)
      (hex_prefix platform 4 [])
      overdue.object
unfolding is_active_job_timed_out corpus_hash
overdue-IsCurrent = record { active = refl; spec = refl; secrets = refl; timed = λ h. refl }

overdue_hash : is_empty (corpus_hash platform overdue.object) ≡ false
unfolding corpus_hash hex_prefix
overdue_hash = refl

no_cleanup : text_eq done_job.name (overdue.object.name ++ codes "-cleanup") ≡ false
unfolding text_eq
no_cleanup = refl

reconcile-GivesUp_example :
    ((reconcile platform returned overdue).0 ≡ requeue_after (5 * minute))
    × GivesUp returned done_job.name
        (corpus_hash platform overdue.object)
        (20000 * second)
        (reconcile platform returned overdue).1
reconcile-GivesUp_example =
    reconcile-GivesUp platform returned (λ h c. refl) (20000 * second) (λ h. refl) overdue done_job
      (hex_prefix platform 4 []) refl refl refl (λ h. credentials _ _) overdue_hash refl no_cleanup
      (λ h. refl) overdue-IsCurrent

-- The server of the second pass: every Job is complete.
abbrev finished_jobs : Text → Job
finished_jobs name = record done_job { name = name }

abbrev later : Server
later = record server { job = λ h name. finished_jobs name }

finished_jobs-Finishes :
    (name : Text)
    → Finishes platform server later
        (corpus_hash platform first_pass.object)
        (hex_prefix platform 4 [])
        ingest_result
        name
        (finished_jobs name)
unfolding is_complete is_failed has_condition is_active_job_timed_out corpus_hash
finished_jobs-Finishes name = record {
  named = refl;
  hashed = refl;
  keyed = refl;
  succeeded = record {
    known = λ h. refl;
    type = refl;
    complete = refl;
    unfailed = refl;
    text = codes "{}";
    read = λ h. refl;
    parsed = refl;
  };
  in_time = λ h1 h2. refl;
}

first_hash : is_empty (corpus_hash platform first_pass.object) ≡ false
unfolding corpus_hash hex_prefix
first_hash = refl

reconcile-Readies_example :
    let w1 = (reconcile platform server first_pass).1 in
    Settles later
      (active w1)
      (corpus_hash platform first_pass.object)
      ingest_result
      (reconcile platform later w1)
reconcile-Readies_example =
    reconcile-Readies platform server later (λ h c. refl) (λ h c. refl) first_pass
      (hex_prefix platform 4 []) ingest_result finished_jobs refl refl refl (λ h. credentials _ _)
      (λ st h. credentials _ _) first_hash first_pass-IsNew (first_pass-Buildable _ _)
      finished_jobs-Finishes
