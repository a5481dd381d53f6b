-- ===== src/Reconcile/Orphans.antt =====
-- Two passes: the status of the first, which starts an ingestion, is refused, and the second meets its Job.
pub mod Tests
use kuberag.Prelude.{Text, ◌≡◌, refl, sym, ap, ◌∙◌, true, false, none, some, []}
use mathlib.Core.Path.{subst}
use kuberag.Platform.{Platform}
use kuberag.Api.KnowledgeBase.{KnowledgeBase, KnowledgeBaseStatus, ChunkingSpec, IngestMode}
use kuberag.Api.Jobs.{Job}
use kuberag.Cluster.{
  Server, History, Pass, ApiError, already_exists, create_job, update_status, Outcome, done, second,
}
use kuberag.Chunking.{effective_chunking, spec_chunking}
use kuberag.Decisions.{corpus_hash}
use kuberag.History.{Accepted, Takes}
use kuberag.History.Launches.{active}
use kuberag.Jobs.{ingest_job_name}
use kuberag.Jobs.Labelled.{build_ingest_job-named}
use kuberag.Ingestion.{launch_ingest, mode_for}
use kuberag.Ingestion.Refused.{
  rounded, start_ingest-launches, Unsaved, launch_ingest-Unsaved, launch_ingest-exists,
}
use kuberag.Ingestion.Success.{put}
use kuberag.Reconcile.{reconcile}
use kuberag.Reconcile.Progress.{IsNew, Buildable, Starting-builds, reconcile-Starting}

-- The name of the Job that an ingestion starts.
next_job_name : Platform → KnowledgeBase → Text
next_job_name p kb = ingest_job_name p (rounded kb) (corpus_hash p kb) (effective_chunking kb)

-- The end of a pass is that of `launch_ingest`, for a Job of the name given.
record Launching (p : Platform) (s : Server) (kb : KnowledgeBase)
    (end : Outcome × Pass KnowledgeBase) : Type 0 where
  job : Job
  spec : Text
  mode : IngestMode
  hash : Text
  eff : ChunkingSpec
  from : Pass KnowledgeBase
  idle : active from ≡ []
  named : job.name ≡ next_job_name p kb
  goes : end ≡ launch_ingest p s job spec mode hash eff from

-- The name does not depend on the hash of the credentials.
put-next_job_name :
    (p : Platform) (secrets_hash : Text) (kb : KnowledgeBase)
    → next_job_name p (put (record (kb.status) { observed_secrets_hash = secrets_hash }) kb)
      ≡ next_job_name p kb
unfolding next_job_name ingest_job_name effective_chunking corpus_hash spec_chunking
put-next_job_name p secrets_hash kb = refl

put-corpus_hash :
    (p : Platform) (st : KnowledgeBaseStatus) (kb : KnowledgeBase)
    → corpus_hash p (put st kb) ≡ corpus_hash p kb
unfolding corpus_hash spec_chunking
put-corpus_hash p st kb = refl

module _ (p : Platform) (s : Server) (takes : Takes s) where
  reconcile-Launching :
      (w : Pass KnowledgeBase)
      → w.object.deleting ≡ false
      → w.object.has_finalizer ≡ true
      → w.object.spec.suspend ≡ false
      → IsNew p w.object
      → Buildable p w.object (corpus_hash p w.object) (effective_chunking w.object)
      → Launching p s w.object (reconcile p s w)
  unfolding next_job_name
  reconcile-Launching w alive held off new builds =
      let g = reconcile-Starting p s w takes alive held off new in
      let hash = corpus_hash p w.object in
      let kb = rounded g.from.object in
      let mode = mode_for kb g.reason in
      let eff = effective_chunking g.from.object in
      let b =
        Starting-builds p s w.object (reconcile p s w) g builds kb.status g.secrets_hash mode in
      let st = record (w.object.status) { observed_secrets_hash = g.secrets_hash } in
      let same_hash : corpus_hash p g.from.object ≡ hash =
        ap (corpus_hash p) g.object ∙ put-corpus_hash p st w.object in
      record {
        job = b.job;
        spec = b.spec;
        mode = mode;
        hash = hash;
        eff = eff;
        from = record (g.from) { object = kb };
        idle = ap (λ o. o.status.active_job) g.object ∙ new.idle;
        named =
            build_ingest_job-named p kb hash g.secrets_hash mode eff b.job b.spec b.built
            ∙ ap (λ h. ingest_job_name p kb h eff) (sym same_hash)
            ∙ ap (next_job_name p) g.object
            ∙ put-next_job_name p g.secrets_hash w.object;
        goes =
            g.goes
            ∙ start_ingest-launches p s eff hash g.secrets_hash g.reason g.from b.job b.spec b.built
                b.fits;
      }

-- A Job that was created in a pass whose status was refused is not taken up by the next. Both
-- servers take all calls but the creation of Jobs and the writes of the status of the
-- KnowledgeBase. Of these, the first server takes the creation of Jobs and refuses each write of
-- the status with the same error, so that the object is the same before both passes; the second
-- answers to the creation of a Job that it exists, where a Job of that name was created by the end
-- of the first pass. Where the KnowledgeBase is neither being deleted nor suspended, has the
-- finalizer, was never indexed, has no active Job and no failed ingestion, was not found too large,
-- and its ingestion Job can be built with a spec that fits into a ConfigMap, the first pass fails
-- with that error and has a Job created, and the second ends without an error, without an active
-- Job and without asking for another pass.
pub reconcile-orphans :
    (p : Platform) (s1 s2 : Server) (takes1 : Takes s1) (takes2 : Takes s2) (e : ApiError)
    (creates : (h : History) (job : Job) → s1.ack h (create_job job) ≡ none)
    (refuses : (h : History) (st : KnowledgeBaseStatus) → s1.ack h (update_status st) ≡ some e)
    (w : Pass KnowledgeBase)
    → w.object.deleting ≡ false
    → w.object.has_finalizer ≡ true
    → w.object.spec.suspend ≡ false
    → IsNew p w.object
    → Buildable p w.object (corpus_hash p w.object) (effective_chunking w.object)
    → ((job again : Job) (h : History)
        → Accepted s1 (create_job job) (reconcile p s1 w).1.log
        → again.name ≡ job.name
        → s2.ack h (create_job again) ≡ some already_exists)
    → let first = reconcile p s1 w in
      let second = reconcile p s2 (record (first.1) { object = w.object }) in
      (first.0 ≡ Outcome.failed e)
      × ((job : Job) × Accepted s1 (create_job job) first.1.log)
      × (second.0 ≡ done)
      × (active second.1 ≡ [])
reconcile-orphans p s1 s2 takes1 takes2 e creates refuses w alive held off new builds known =
    let first = reconcile p s1 w in
    let again : Pass KnowledgeBase = record (first.1) { object = w.object } in
    let l1 = reconcile-Launching p s1 takes1 w alive held off new builds in
    let l2 = reconcile-Launching p s2 takes2 again alive held off new builds in
    let lost = subst (Unsaved s1 e l1.job.name) (sym l1.goes) (
      launch_ingest-Unsaved p s1 takes1 e creates refuses l1.job l1.spec l1.mode l1.hash l1.eff
        l1.from) in
    let same : l2.job.name ≡ lost.job.name = l2.named ∙ sym l1.named ∙ sym lost.named in
    let (ended, kept) =
      launch_ingest-exists p s2 takes2 l2.job l2.spec l2.mode l2.hash l2.eff l2.from
        (λ h. known lost.job l2.job h lost.created same) in
    (
      lost.result,
      (lost.job, lost.created),
      ap (λ r. r.0) l2.goes ∙ ended,
      ap (λ r. r.1.object.status.active_job) l2.goes ∙ ap (λ o. o.status.active_job) kept ∙ l2.idle,
    )
