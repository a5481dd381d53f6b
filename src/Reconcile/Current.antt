-- ===== src/Reconcile/Current.antt =====
-- The Job that check_active of Reconcile finds, and the object that it is judged with.
use kuberag.Prelude.{
  is_empty, text_eq, Text, codes, text_eq_refl, ◌≡◌, refl, sym, ap, ◌∙◌, Bool, false, none, ◌∷◌,
  ◌++◌, arith,
}
use mathlib.Core.Path.{subst}
use kuberag.Platform.{Platform}
use kuberag.Api.KnowledgeBase.{KnowledgeBase}
use kuberag.Api.Jobs.{Job}
use kuberag.Labels.{active_ingest_is_stale, job_spec_hash, job_secrets_hash}
use kuberag.Cluster.{◌>>=◌, Server, History, Call, Pass, fetch_job, get_job}
use kuberag.Chunking.{effective_chunking}
use kuberag.Status.{with_status}
use kuberag.AutoTune.{record_auto_tune_duration}
use kuberag.Secrets.{compute_secrets_hash}
use kuberag.Secrets.Frame.{compute_secrets_hash-Quiet}
use kuberag.Decisions.{corpus_hash, is_active_job_timed_out}
use kuberag.Reconcile.{drop_override, judge_active, check_active, finish_active, work}

-- The active Job, made for the hashes given. Whether its time is over is the same at every point.
pub record IsCurrent (s : Server) (j : Job) (late : Bool) (chash secrets_hash : Text)
    (kb : KnowledgeBase) : Type 0 where
  pub active : kb.status.active_job ≡ j.name
  pub spec : j.labels.spec_hash ≡ chash
  pub secrets : j.labels.secrets_hash ≡ secrets_hash
  pub timed :
      (h : History) → is_active_job_timed_out j kb.status.active_job_started_at (s.now h) ≡ late

record Kept (kb kb' : KnowledgeBase) : Type 0 where
  active : kb'.status.active_job ≡ kb.status.active_job
  started : kb'.status.active_job_started_at ≡ kb.status.active_job_started_at
  name : kb'.name ≡ kb.name
  secrets : kb'.status.observed_secrets_hash ≡ kb.status.observed_secrets_hash

drop_override-Kept : (chash : Text) (kb : KnowledgeBase) → Kept kb (drop_override chash kb)
unfolding drop_override record_auto_tune_duration
drop_override-Kept chash kb = record {
  active = ground arith;
  started = ground arith;
  name = ground arith;
  secrets = ground arith;
}

pub fresh :
    (j : Job) (chash secrets_hash observed : Text)
    → is_empty chash ≡ false
    → j.labels.spec_hash ≡ chash
    → j.labels.secrets_hash ≡ secrets_hash
    → active_ingest_is_stale j chash secrets_hash observed secrets_hash ≡ false
unfolding active_ingest_is_stale job_spec_hash job_secrets_hash
fresh j chash secrets_hash observed filled spec secrets =
    ground (arith, text_eq_refl chash, text_eq_refl secrets_hash)

-- The pass that the active Job is judged in.
abbrev pub staged : Platform → Server → Pass KnowledgeBase → Pass KnowledgeBase
staged p s w =
    let m = compute_secrets_hash s p w in
    record {
      object =
          drop_override (corpus_hash p m.1.object)
            (with_status (λ st. record st { observed_secrets_hash = m.0 }) m.1.object);
      log = m.1.log;
    }

-- It is current in there too, with the hashes that the pass has computed.
pub record Staged (p : Platform) (s : Server) (j : Job) (late : Bool) (chash secrets_hash : Text)
    (w : Pass KnowledgeBase) : Type 0 where
  pub hash : corpus_hash p (compute_secrets_hash s p w).1.object ≡ chash
  pub current : IsCurrent s j late chash secrets_hash (staged p s w).object
  pub seen : (staged p s w).object.status.observed_secrets_hash ≡ secrets_hash
  pub name : (staged p s w).object.name ≡ w.object.name

pub staged_lem :
    (p : Platform) (s : Server) (w : Pass KnowledgeBase) (j : Job) (late : Bool)
    (chash secrets_hash : Text)
    → corpus_hash p w.object ≡ chash
    → (compute_secrets_hash s p w).0 ≡ secrets_hash
    → IsCurrent s j late chash secrets_hash w.object
    → Staged p s j late chash secrets_hash w
staged_lem p s w j late chash secrets_hash hashed keyed cur =
    let m = compute_secrets_hash s p w in
    let same = (compute_secrets_hash-Quiet s p w).same_object in
    let kb1 = with_status (λ st. record st { observed_secrets_hash = m.0 }) m.1.object in
    let kept = drop_override-Kept (corpus_hash p m.1.object) kb1 in
    let started = kept.started ∙ ap (λ kb. kb.status.active_job_started_at) same in
    record {
      hash = ap (corpus_hash p) same ∙ hashed;
      current = record {
        active = kept.active ∙ ap (λ kb. kb.status.active_job) same ∙ cur.active;
        spec = cur.spec;
        secrets = cur.secrets;
        timed = λ h.
            subst (λ o. is_active_job_timed_out j o (s.now h) ≡ late) (sym started) (cur.timed h);
      };
      seen = kept.secrets ∙ keyed;
      name = kept.name ∙ ap (λ kb. kb.name) same;
    }

module _ (p : Platform) (s : Server) (w : Pass KnowledgeBase) where
  -- With the check of the active Job passed, for the hashes given.
  abbrev Goes : Text → Text → Type 0
  Goes chash secrets_hash =
      let c = check_active p s chash secrets_hash (staged p s w) in
      c.0 ≡ none
      → work p s w
        ≡ finish_active p s (effective_chunking (staged p s w).object) chash secrets_hash c.1

  work-Goes :
      Goes (corpus_hash p (compute_secrets_hash s p w).1.object) (compute_secrets_hash s p w).0
  unfolding work
  work-Goes good = rw (good, work) refl

  pub work-checked :
      (chash secrets_hash : Text)
      → corpus_hash p (compute_secrets_hash s p w).1.object ≡ chash
      → (compute_secrets_hash s p w).0 ≡ secrets_hash
      → let c = check_active p s chash secrets_hash (staged p s w) in
        c.0 ≡ none
        → work p s w
          ≡ finish_active p s (effective_chunking (staged p s w).object) chash secrets_hash c.1
  work-checked chash secrets_hash hashed keyed =
      subst (Goes chash) keyed (subst (λ h. Goes h (compute_secrets_hash s p w).0) hashed work-Goes)

module _ (p : Platform) (s : Server) (taking : (h : History) (c : Call) → s.ack h c ≡ none) where
  -- The Job is found under its name, unless that is the name of a cleanup Job.
  pub check_active-found :
      (j : Job) (chash secrets_hash : Text) (v : Pass KnowledgeBase)
      → is_empty v.object.status.active_job ≡ false
      → text_eq v.object.status.active_job (v.object.name ++ codes "-cleanup") ≡ false
      → s.job v.log v.object.status.active_job ≡ j
      → check_active p s chash secrets_hash v
        ≡ judge_active p s j chash secrets_hash
            (record v { log = get_job v.object.status.active_job ∷ v.log })
  unfolding check_active fetch_job
  check_active-found j chash secrets_hash v named working known =
      rw
        (
          named,
          working,
          taking v.log (get_job v.object.status.active_job),
          known,
          check_active,
          ◌>>=◌,
        )
        refl
