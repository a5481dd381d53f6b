-- ===== src/Reconcile/Progress.antt =====
-- A pass over a KnowledgeBase that was never indexed, against a server that refuses nothing.
use kuberag.Prelude.{
  Option-cases, is_empty, Text, ◌≡◌, refl, sym, ap, ◌∙◌, inl, inr, true, false, none, [], arith,
}
use mathlib.Core.Path.{subst}
use kuberag.Platform.{Platform}
use kuberag.Api.KnowledgeBase.{KnowledgeBase, KnowledgeBaseStatus, Time, ChunkingSpec, IngestMode}
use kuberag.History.{Takes}
use kuberag.Ingestion.{start_ingest}
use kuberag.Cluster.{Outcome, Server, History, Call, Pass, time_now}
use kuberag.Chunking.{effective_chunking, spec_chunking}
use kuberag.Status.{with_status}
use kuberag.Secrets.{compute_secrets_hash}
use kuberag.Secrets.Frame.{compute_secrets_hash-Quiet}
use kuberag.Decisions.{
  IngestReason, corpus_hash, user_edited_spec, is_some, needs_ingest, ingest_failure_retry_after,
  spec_config_too_large_unchanged,
}
use kuberag.Ingestion.Success.{SameBut, put, reframe, Begins, Builds, start_ingest-Begins}
use kuberag.Reconcile.Working.{reconcile-Works}
use kuberag.Reconcile.{drop_override, decide, finish_active, check_active, work, reconcile}

-- Nothing was indexed yet and no Job is active, no ingestion failed, and the spec was not found too
-- large for a ConfigMap at this generation.
pub record IsNew (p : Platform) (kb : KnowledgeBase) : Type 0 where
  pub idle : kb.status.active_job ≡ []
  pub unindexed : kb.status.observed_spec_hash ≡ []
  pub unfailed : kb.status.last_failure_time ≡ none
  pub fits : spec_config_too_large_unchanged p kb ≡ false

-- Whatever the status is, the Job of an ingestion can be built and its spec fits into a ConfigMap.
abbrev pub Buildable : Platform → KnowledgeBase → Text → ChunkingSpec → Type 0
Buildable p kb hash eff =
    (st : KnowledgeBaseStatus) (secrets_hash : Text) (mode : IngestMode)
    → Builds p (record kb { status = st }) hash secrets_hash mode eff

needs_ingest-unindexed :
    (p : Platform) (kb : KnowledgeBase) (desired : Text) (now : Time)
    → kb.status.observed_spec_hash ≡ []
    → is_some (needs_ingest p kb desired now) ≡ true
unfolding needs_ingest
needs_ingest-unindexed p kb desired now e = rw e (ground arith)

no_wait :
    (kb : KnowledgeBase) (chash : Text) (now : Time)
    → kb.status.last_failure_time ≡ none
    → ingest_failure_retry_after kb chash now ≡ 0
unfolding ingest_failure_retry_after
no_wait kb chash now e = ground (arith, e)

drop_override-unindexed :
    (chash : Text) (kb : KnowledgeBase)
    → kb.status.observed_spec_hash ≡ []
    → drop_override chash kb ≡ kb
unfolding drop_override user_edited_spec
drop_override-unindexed chash kb e = ground (arith, e)

hashed-IsNew :
    (p : Platform) (secrets_hash : Text) (kb : KnowledgeBase)
    → IsNew p kb
    → IsNew p (with_status (λ st. record st { observed_secrets_hash = secrets_hash }) kb)
unfolding spec_config_too_large_unchanged
hashed-IsNew p secrets_hash kb new = record {
  idle = new.idle;
  unindexed = new.unindexed;
  unfailed = new.unfailed;
  fits = new.fits;
}

-- The pass ends as startIngest does, for the object with the hash of the credentials.
pub record Starting (p : Platform) (s : Server) (hash : Text) (kb : KnowledgeBase)
    (end : Outcome × Pass KnowledgeBase) : Type 0 where
  pub secrets_hash : Text
  pub read_at : History
  pub keyed : (compute_secrets_hash s p (record { object = kb; log = read_at })).0 ≡ secrets_hash
  pub reason : IngestReason
  pub from : Pass KnowledgeBase
  pub object : from.object ≡ put (record (kb.status) { observed_secrets_hash = secrets_hash }) kb
  pub goes : end ≡ start_ingest p s (effective_chunking from.object) hash secrets_hash reason from

module _ (p : Platform) (s : Server) where
  -- A new KnowledgeBase needs an ingestion at once.
  decide-starts :
      (eff : ChunkingSpec) (chash secrets_hash : Text) (v : Pass KnowledgeBase)
      → IsNew p v.object
      → (reason : IngestReason) × (decide p s eff chash secrets_hash v
          ≡ start_ingest p s eff chash secrets_hash reason v)
  unfolding decide time_now
  decide-starts eff chash secrets_hash v new =
      elim (Option-cases (needs_ingest p v.object chash (s.now v.log))) [
        | inl fresh ↦
            let due = needs_ingest-unindexed p v.object chash (s.now v.log) new.unindexed in cc
        | inr (reason, due) ↦ (
          reason,
          rw (no_wait v.object chash (s.now v.log) new.unfailed, new.fits, due, decide) refl,
        )
      ]

  finish_active-decide :
      (eff : ChunkingSpec) (chash secrets_hash : Text) (v : Pass KnowledgeBase)
      → v.object.status.active_job ≡ []
      → finish_active p s eff chash secrets_hash v ≡ decide p s eff chash secrets_hash v
  unfolding finish_active
  finish_active-decide eff chash secrets_hash v idle = rw (ap is_empty idle, finish_active) refl

  check_active-idle :
      (chash secrets_hash : Text) (v : Pass KnowledgeBase)
      → v.object.status.active_job ≡ []
      → check_active p s chash secrets_hash v ≡ (none, v)
  unfolding check_active
  check_active-idle chash secrets_hash v idle = rw (ap is_empty idle) refl

  work-Starting :
      (w : Pass KnowledgeBase)
      → IsNew p w.object
      → Starting p s (corpus_hash p w.object) w.object (work p s w)
  unfolding work
  work-Starting w new =
      let m = compute_secrets_hash s p w in
      let same = (compute_secrets_hash-Quiet s p w).same_object in
      let kb = m.1.object in
      let chash = corpus_hash p kb in
      let kb1 = with_status (λ st. record st { observed_secrets_hash = m.0 }) kb in
      let v : Pass KnowledgeBase = record { object = drop_override chash kb1; log = m.1.log } in
      let new1 = hashed-IsNew p m.0 kb (subst (IsNew p) (sym same) new) in
      let dropped = drop_override-unindexed chash kb1 new1.unindexed in
      let new2 = subst (IsNew p) (sym dropped) new1 in
      let idle = check_active-idle chash m.0 v new2.idle in
      let eff = effective_chunking v.object in
      let starts = decide-starts eff chash m.0 v new2 in
      let good : (check_active p s chash m.0 v).0 ≡ none = ap (λ r. r.0) idle in
      let on : work p s w ≡ start_ingest p s eff chash m.0 starts.0 v =
        rw (good, work)
          (ap (λ r. finish_active p s eff chash m.0 r.1) idle
            ∙ finish_active-decide eff chash m.0 v new2.idle
            ∙ starts.1) in
      record {
        secrets_hash = m.0;
        read_at = w.log;
        keyed = refl;
        reason = starts.0;
        from = v;
        object = dropped ∙ ap (with_status (λ st. record st { observed_secrets_hash = m.0 })) same;
        goes = on ∙ ap (λ h. start_ingest p s eff h m.0 starts.0 v) (ap (corpus_hash p) same);
      }

  pub reconcile-Starting :
      (w : Pass KnowledgeBase)
      → Takes s
      → w.object.deleting ≡ false
      → w.object.has_finalizer ≡ true
      → w.object.spec.suspend ≡ false
      → IsNew p w.object
      → Starting p s (corpus_hash p w.object) w.object (reconcile p s w)
  reconcile-Starting w takes alive held off new =
      let on = reconcile-Works p s takes w alive held off in
      let starting : Starting p s (corpus_hash p w.object) w.object (work p s on.from) =
        subst (λ kb. Starting p s (corpus_hash p kb) kb (work p s on.from)) on.same_object
          (work-Starting on.from (subst (IsNew p) (sym on.same_object) new)) in
      subst (Starting p s (corpus_hash p w.object) w.object) (sym on.working) starting

-- The chunking in use does not depend on the hash of the credentials.
put-effective_chunking :
    (secrets_hash : Text) (kb : KnowledgeBase)
    → effective_chunking (put (record (kb.status) { observed_secrets_hash = secrets_hash }) kb)
      ≡ effective_chunking kb
unfolding effective_chunking spec_chunking
put-effective_chunking secrets_hash kb = refl

-- What can be built for an object can be built behind the start.
pub Starting-builds :
    (p : Platform) (s : Server) (kb : KnowledgeBase) (end : Outcome × Pass KnowledgeBase)
    (g : Starting p s (corpus_hash p kb) kb end)
    → Buildable p kb (corpus_hash p kb) (effective_chunking kb)
    → Buildable p g.from.object (corpus_hash p kb) (effective_chunking g.from.object)
Starting-builds p s kb end g builds =
    let kb1 = put (record (kb.status) { observed_secrets_hash = g.secrets_hash }) kb in
    subst (λ o. Buildable p o (corpus_hash p kb) (effective_chunking o)) (sym g.object)
      (subst (Buildable p kb1 (corpus_hash p kb)) (sym (put-effective_chunking g.secrets_hash kb))
        builds)

module _ (p : Platform) (s : Server) (taking : (h : History) (c : Call) → s.ack h c ≡ none) where
  -- A new KnowledgeBase gets its first ingestion. Against a server that refuses nothing, a pass over one
  -- that is neither being deleted nor suspended, has the finalizer, was never indexed, has no active Job
  -- and no failed ingestion, was not found too large, whose credentials have one hash throughout, and whose
  -- ingestion Job can be built with a spec that fits into a ConfigMap, ends with a Job that the server
  -- took, labelled with the hashes of the spec and the credentials, with that Job as the active one and
  -- the phase ingesting in a status that the server took too, with nothing but the status changed, and
  -- with the next look in ten seconds.
  pub reconcile-Begins :
      (w : Pass KnowledgeBase) (secrets_hash : Text)
      → w.object.deleting ≡ false
      → w.object.has_finalizer ≡ true
      → w.object.spec.suspend ≡ false
      → ((h : History) → (compute_secrets_hash s p (record w { log = h })).0 ≡ secrets_hash)
      → IsNew p w.object
      → Buildable p w.object (corpus_hash p w.object) (effective_chunking w.object)
      → Begins s (corpus_hash p w.object) secrets_hash w.object (reconcile p s w)
  reconcile-Begins w secrets_hash alive held off keyed new builds =
      let hash = corpus_hash p w.object in
      let g = reconcile-Starting p s w (λ h c plain. taking h c) alive held off new in
      let can = Starting-builds p s w.object (reconcile p s w) g builds in
      let eff = effective_chunking g.from.object in
      let begun =
        start_ingest-Begins p s taking eff hash g.secrets_hash g.reason g.from
          (λ st mode. can st g.secrets_hash mode) in
      let unmoved : SameBut g.from.object w.object =
        subst (λ o. SameBut o w.object) (sym g.object) refl in
      let here : Begins s hash g.secrets_hash w.object (reconcile p s w) =
        reframe s hash g.secrets_hash w.object g.from.object unmoved (reconcile p s w)
          (subst (Begins s hash g.secrets_hash g.from.object) (sym g.goes) begun) in
      subst (λ h. Begins s hash h w.object (reconcile p s w)) (sym g.keyed ∙ keyed g.read_at) here
