-- ===== src/Reconcile/Conclusion.antt =====
-- A pass that finds the ingestion Job complete, against a server that refuses nothing.
use kuberag.Prelude.{
  Bool-cases, is_empty, text_eq, Text, codes, ◌≡◌, refl, sym, ap, ◌∙◌, inl, inr, true, false, ◌||◌,
  none, ◌∷◌, ◌++◌, arith,
}
use mathlib.Core.Path.{subst}
use kuberag.Platform.{Platform}
use kuberag.Api.KnowledgeBase.{KnowledgeBase, ChunkingSpec}
use kuberag.Api.Jobs.{Job, IngestResult}
use kuberag.Labels.{active_ingest_is_stale, job_spec_hash}
use kuberag.Cluster.{◌>>=◌, Server, History, Call, Pass, time_now, fetch_job, get_job}
use kuberag.Chunking.{effective_chunking}
use kuberag.Secrets.{compute_secrets_hash}
use kuberag.Decisions.{corpus_hash}
use kuberag.Ingestion.Conclusion.{Settles, HasSucceeded, reconcile_active_job-Settles}
use kuberag.Reconcile.{
  judge_active, check_active, continue_unless, is_error, finish_active, work, reconcile,
}
use kuberag.Reconcile.Current.{IsCurrent, fresh, staged, staged_lem, work-checked}
use kuberag.Reconcile.Working.{reconcile-Works}

labelled-hash :
    (j : Job) (chash : Text) → j.labels.spec_hash ≡ chash → job_spec_hash j chash ≡ chash
unfolding job_spec_hash
labelled-hash j chash same = ground (arith, same)

module _ (p : Platform) (s : Server) (taking : (h : History) (c : Call) → s.ack h c ≡ none) where
  judge_active-leaves :
      (j : Job) (chash secrets_hash : Text) (v : Pass KnowledgeBase)
      → is_empty chash ≡ false
      → IsCurrent s j false chash secrets_hash v.object
      → v.object.status.observed_secrets_hash ≡ secrets_hash
      → judge_active p s j chash secrets_hash v ≡ (none, v)
  unfolding judge_active time_now
  judge_active-leaves j chash secrets_hash v filled cur seen =
      let ok : active_ingest_is_stale j chash secrets_hash v.object.status.observed_spec_hash
            v.object.status.observed_secrets_hash
          ≡ false =
        subst
          (λ o.
            active_ingest_is_stale j chash secrets_hash v.object.status.observed_spec_hash o
            ≡ false)
          (sym seen) (fresh j chash secrets_hash _ filled cur.spec cur.secrets) in
      rw (ok, cur.timed v.log) refl

  -- Neither stale nor over its time: the check of the active Job changes nothing.
  record Leaves (chash secrets_hash : Text) (v : Pass KnowledgeBase) : Type 0 where
    good : (check_active p s chash secrets_hash v).0 ≡ none
    same_object : (check_active p s chash secrets_hash v).1.object ≡ v.object

  check_active-Leaves :
      (j : Job) (chash secrets_hash : Text) (v : Pass KnowledgeBase)
      → is_empty chash ≡ false
      → ((h : History) → s.job h j.name ≡ j)
      → IsCurrent s j false chash secrets_hash v.object
      → v.object.status.observed_secrets_hash ≡ secrets_hash
      → Leaves chash secrets_hash v
  unfolding check_active fetch_job
  check_active-Leaves j chash secrets_hash v filled known cur seen =
      let name = v.object.status.active_job in
      let u : Pass KnowledgeBase = record v { log = get_job name ∷ v.log } in
      let met : s.job v.log name ≡ j = ap (s.job v.log) cur.active ∙ known v.log in
      let same = judge_active-leaves j chash secrets_hash u filled cur seen in
      elim (Bool-cases (is_empty name || text_eq name (v.object.name ++ codes "-cleanup"))) [
        | inl skip ↦ record {
          good = rw (skip, check_active) refl;
          same_object = rw (skip, check_active) refl;
        }
        | inr look ↦ record {
          good =
              rw (look, taking v.log (get_job name), met, check_active, ◌>>=◌) (ap (λ r. r.0) same);
          same_object =
              rw (look, taking v.log (get_job name), met, check_active, ◌>>=◌)
                (ap (λ r. r.1.object) same);
        }
      ]

  finish_active-Settles :
      (j : Job) (eff : ChunkingSpec) (chash secrets_hash : Text) (r : IngestResult)
      (v : Pass KnowledgeBase)
      → is_empty j.name ≡ false
      → HasSucceeded p s j r
      → v.object.status.active_job ≡ j.name
      → Settles s j.name (job_spec_hash j chash) r (finish_active p s eff chash secrets_hash v)
  unfolding finish_active continue_unless is_error
  finish_active-Settles j eff chash secrets_hash r v filled over busy =
      let (handled, settled) =
        reconcile_active_job-Settles p s taking j eff chash secrets_hash r v over busy in
      let fine = ap is_error settled.result in
      rw (ap is_empty busy ∙ filled, fine, handled, finish_active) settled

  work-Settles :
      (w : Pass KnowledgeBase) (j : Job) (chash secrets_hash : Text) (r : IngestResult)
      → corpus_hash p w.object ≡ chash
      → (compute_secrets_hash s p w).0 ≡ secrets_hash
      → is_empty chash ≡ false
      → is_empty j.name ≡ false
      → HasSucceeded p s j r
      → IsCurrent s j false chash secrets_hash w.object
      → Settles s j.name chash r (work p s w)
  work-Settles w j chash secrets_hash r hashed keyed filled named over cur =
      let m = compute_secrets_hash s p w in
      let v = staged p s w in
      let law = staged_lem p s w j false chash secrets_hash hashed keyed cur in
      let c = check_active p s chash secrets_hash v in
      let left =
        check_active-Leaves j chash secrets_hash v filled over.known law.current law.seen in
      let busy = ap (λ kb. kb.status.active_job) left.same_object ∙ law.current.active in
      let on : Settles s j.name chash r
          (finish_active p s (effective_chunking v.object) chash secrets_hash c.1) =
        subst
          (λ hash.
            Settles s j.name hash r
              (finish_active p s (effective_chunking v.object) chash secrets_hash c.1))
          (labelled-hash j chash cur.spec)
          (finish_active-Settles j (effective_chunking v.object) chash secrets_hash r c.1 named over
            busy) in
      subst (Settles s j.name chash r)
        (sym (work-checked p s w chash secrets_hash law.hash keyed left.good)) on

  -- An ingestion that succeeded is taken over. Against a server that refuses nothing, a pass over a
  -- KnowledgeBase that is neither being deleted nor suspended and has the finalizer, whose active Job is
  -- a complete ingestion Job with a result that can be read, made for the hash of the spec and of the
  -- credentials as they are, and not over its time, ends with the phase ready, the chunks, sources and
  -- hash of that Job on record and no active Job, in a status that the server took, with the deletion of
  -- the Job taken, and with another pass at once.
  pub reconcile-Settles :
      (w : Pass KnowledgeBase) (j : Job) (secrets_hash : Text) (r : IngestResult)
      → w.object.deleting ≡ false
      → w.object.has_finalizer ≡ true
      → w.object.spec.suspend ≡ false
      → ((h : History) → (compute_secrets_hash s p (record w { log = h })).0 ≡ secrets_hash)
      → is_empty (corpus_hash p w.object) ≡ false
      → is_empty j.name ≡ false
      → HasSucceeded p s j r
      → IsCurrent s j false (corpus_hash p w.object) secrets_hash w.object
      → Settles s j.name (corpus_hash p w.object) r (reconcile p s w)
  reconcile-Settles w j secrets_hash r alive held off keyed filled named over cur =
      let on = reconcile-Works p s (λ h c plain. taking h c) w alive held off in
      let same = on.same_object in
      let keyed1 : (compute_secrets_hash s p on.from).0 ≡ secrets_hash =
        subst
          (λ kb.
            (compute_secrets_hash s p (record { object = kb; log = on.from.log })).0 ≡ secrets_hash)
          (sym same) (keyed on.from.log) in
      subst (Settles s j.name (corpus_hash p w.object) r) (sym on.working) (
        work-Settles on.from j (corpus_hash p w.object) secrets_hash r (ap (corpus_hash p) same)
          keyed1 filled named over
          (subst (IsCurrent s j false (corpus_hash p w.object) secrets_hash) (sym same) cur))
