-- ===== src/Reconcile/Readiness.antt =====
-- Two passes: the one that starts the first ingestion, and the one that finds its Job complete.
use kuberag.Prelude.{is_empty, Text, ◌≡◌, sym, ap, ◌∙◌, true, false, none, some}
use mathlib.Core.Path.{subst}
use kuberag.Platform.{Platform}
use kuberag.Api.KnowledgeBase.{KnowledgeBase, KnowledgeBaseStatus}
use kuberag.Api.Jobs.{Job, IngestResult}
use kuberag.Cluster.{Server, History, Call, Pass}
use kuberag.Chunking.{effective_chunking, spec_chunking}
use kuberag.History.Launches.{active}
use kuberag.Secrets.{compute_secrets_hash}
use kuberag.Decisions.{corpus_hash, is_active_job_timed_out}
use kuberag.Ingestion.Success.{SameBut, put}
use kuberag.Ingestion.Conclusion.{Settles, HasSucceeded}
use kuberag.Reconcile.{reconcile}
use kuberag.Reconcile.Current.{IsCurrent}
use kuberag.Reconcile.Progress.{IsNew, Buildable, reconcile-Begins}
use kuberag.Reconcile.Conclusion.{reconcile-Settles}

-- Under the name the later server has an ingestion Job with the labels for the hashes given, which is
-- complete with the result, and whose time does not run out from the first pass to the second.
pub record Finishes (p : Platform) (s1 s2 : Server) (hash secrets_hash : Text) (r : IngestResult)
    (name : Text) (j : Job) : Type 0 where
  pub named : j.name ≡ name
  pub hashed : j.labels.spec_hash ≡ hash
  pub keyed : j.labels.secrets_hash ≡ secrets_hash
  pub succeeded : HasSucceeded p s2 j r
  pub in_time : (h1 h2 : History) → is_active_job_timed_out j (some (s1.now h1)) (s2.now h2) ≡ false

corpus_hash-put :
    (p : Platform) (kb kb' : KnowledgeBase) → SameBut kb' kb → corpus_hash p kb' ≡ corpus_hash p kb
unfolding corpus_hash spec_chunking
corpus_hash-put p kb kb' same = ap (corpus_hash p) same

-- A new KnowledgeBase becomes ready. Two servers refuse nothing, and for both the credentials have one
-- hash throughout. The KnowledgeBase is neither being deleted nor suspended, has the finalizer, was never
-- indexed, has no active Job and no failed ingestion, was not found too large, and its ingestion Job can
-- be built with a spec that fits into a ConfigMap. Where a pass on the first server is followed by one on
-- the second, which has every Job complete with the same result, with the labels for the hashes of the
-- spec and the credentials and its time not over, the second pass ends with the phase ready, the chunks,
-- sources and hash of that ingestion on record and no active Job, in a status that the server took, and
-- with the deletion taken of the Job that the first pass had made the active one.
pub reconcile-Readies :
    (p : Platform) (s1 s2 : Server) (taking1 : (h : History) (c : Call) → s1.ack h c ≡ none)
    (taking2 : (h : History) (c : Call) → s2.ack h c ≡ none) (w : Pass KnowledgeBase)
    (secrets_hash : Text) (r : IngestResult) (jobs : Text → Job)
    → w.object.deleting ≡ false
    → w.object.has_finalizer ≡ true
    → w.object.spec.suspend ≡ false
    → ((h : History) → (compute_secrets_hash s1 p (record w { log = h })).0 ≡ secrets_hash)
    → ((st : KnowledgeBaseStatus) (h : History)
        → (compute_secrets_hash s2 p (record { object = put st w.object; log = h })).0
          ≡ secrets_hash)
    → is_empty (corpus_hash p w.object) ≡ false
    → IsNew p w.object
    → Buildable p w.object (corpus_hash p w.object) (effective_chunking w.object)
    → ((name : Text) → Finishes p s1 s2 (corpus_hash p w.object) secrets_hash r name (jobs name))
    → let w1 = (reconcile p s1 w).1 in
      Settles s2 (active w1) (corpus_hash p w.object) r (reconcile p s2 w1)
reconcile-Readies p s1 s2 taking1 taking2 w secrets_hash r jobs alive held off keyed1 keyed2 filled
      new builds over =
    let hash = corpus_hash p w.object in
    let w1 = (reconcile p s1 w).1 in
    let b = reconcile-Begins p s1 taking1 w secrets_hash alive held off keyed1 new builds in
    let j = jobs (active w1) in
    let f = over (active w1) in
    let frame = b.frame in
    let same : corpus_hash p w1.object ≡ hash = corpus_hash-put p w.object w1.object frame in
    let keyed : (h : History)
        → (compute_secrets_hash s2 p (record w1 { log = h })).0 ≡ secrets_hash =
      λ h.
        subst (λ kb. (compute_secrets_hash s2 p (record { object = kb; log = h })).0 ≡ secrets_hash)
          (sym frame) (keyed2 w1.object.status h) in
    let cur : IsCurrent s2 j false (corpus_hash p w1.object) secrets_hash w1.object = record {
      active = sym f.named;
      spec = f.hashed ∙ sym same;
      secrets = f.keyed;
      timed = λ h.
          subst (λ o. is_active_job_timed_out j o (s2.now h) ≡ false) (sym b.started_at)
            (f.in_time b.started h);
    } in
    let on =
      reconcile-Settles p s2 taking2 w1 j secrets_hash r (ap (λ kb. kb.deleting) frame ∙ alive)
        (ap (λ kb. kb.has_finalizer) frame ∙ held) (ap (λ kb. kb.spec.suspend) frame ∙ off) keyed
        (ap is_empty same ∙ filled) (ap is_empty (f.named ∙ b.followed) ∙ b.named) f.succeeded
        cur in
    subst (λ name. Settles s2 name hash r (reconcile p s2 w1)) f.named
      (subst (λ h. Settles s2 j.name h r (reconcile p s2 w1)) same on)
