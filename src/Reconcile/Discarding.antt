-- ===== src/Reconcile/Discarding.antt =====
-- A pass that finds the active Job over its time, against a server that refuses nothing.
use kuberag.Prelude.{
  is_empty, text_eq, Text, codes, text_eq_refl, ◌*◌, ◌≡◌, refl, sym, ap, ◌∙◌, true, false, none,
  some, [], ◌∷◌, ◌++◌, arith,
}
use mathlib.Core.Path.{subst}
use kuberag.Platform.{Platform}
use kuberag.Api.KnowledgeBase.{KnowledgeBase, ChunkingSpec, Phase, Time, ingestion_stuck}
use kuberag.Api.Jobs.{Job}
use kuberag.Labels.{active_ingest_is_stale}
use kuberag.Cluster.{
  Server, History, Call, Pass, attempt, time_now, fetch_key, get_job, delete_job, update_status,
  event, requeue_after, minute,
}
use kuberag.Chunking.{effective_chunking}
use kuberag.History.{Accepted}
use kuberag.History.Keeps.{by_calls, Accepted-IsSteady}
use kuberag.History.Launches.{active}
use kuberag.Status.{status_update, set_condition}
use kuberag.Status.Saving.{status_update-Saves}
use kuberag.Status.Success.{status_update-succeeds}
use kuberag.Status.Keeps.{status_update-Keeps}
use kuberag.Identity.{clear_worker_config_map_access}
use kuberag.Identity.Keeps.{clear-Keeps}
use kuberag.Secrets.{compute_secrets_hash}
use kuberag.Decisions.{
  corpus_hash, ingest_failure_retry_after, ingest_failure_retry_delay, is_failed_phase,
}
use kuberag.Ingestion.{read_checkpoint_result}
use kuberag.Reconcile.{
  clear_stuck, stuck, judge_active, check_active, decide, finish_active, work, reconcile,
}
use kuberag.Reconcile.Current.{
  IsCurrent, fresh, staged, Staged, staged_lem, check_active-found, work-checked,
}
use kuberag.Reconcile.Working.{reconcile-Works}

-- The Job is given up at the time given: the phase is failed, for the hash given, no Job is active, in a
-- status that the server took, and the deletion of the Job was taken.
pub record GivesUp (s : Server) (job hash : Text) (at : Time) (end : Pass KnowledgeBase)
    : Type 0 where
  pub phase : end.object.status.phase ≡ Phase.failed
  pub idle : active end ≡ []
  pub failed_hash : end.object.status.last_failed_spec_hash ≡ hash
  pub failed_at : end.object.status.last_failure_time ≡ some at
  pub stored : Accepted s (update_status end.object.status) end.log
  pub deleted : Accepted s (delete_job job) end.log

module _ (p : Platform) (s : Server) (taking : (h : History) (c : Call) → s.ack h c ≡ none)
    (at : Time) (still : (h : History) → s.now h ≡ at) where
  clear_stuck-good :
      (j : Job) (chash : Text) (v : Pass KnowledgeBase) → (clear_stuck p s j chash v).0 ≡ none
  unfolding clear_stuck
  clear_stuck-good j chash v = status_update-succeeds s taking _

  clear_stuck-GivesUp :
      (j : Job) (chash : Text) (v : Pass KnowledgeBase)
      → GivesUp s j.name chash at (clear_stuck p s j chash v).1
  unfolding clear_stuck attempt time_now read_checkpoint_result fetch_key stuck set_condition
  clear_stuck-GivesUp j chash v =
      let u1 : Pass KnowledgeBase = record v {
        log = delete_job j.name ∷ event true ingestion_stuck ∷ v.log;
      } in
      let read = read_checkpoint_result p s j.name u1 in
      let u2 = (clear_worker_config_map_access s p read.1).1 in
      let z : Pass KnowledgeBase = record {
        object = stuck p (s.now u2.log) chash read.0 u2.object;
        log = u2.log;
      } in
      let law = status_update-Saves s z in
      let same = law.quiet.same_object in
      let end = (status_update s z).1 in
      let st = Accepted-IsSteady s (delete_job j.name) in
      let asked : Accepted s (delete_job j.name) read.1.log =
        Accepted.there (Accepted.here (taking _ _)) in
      record {
        phase = ap (λ kb. kb.status.phase) same;
        idle = ap (λ kb. kb.status.active_job) same;
        failed_hash = ap (λ kb. kb.status.last_failed_spec_hash) same;
        failed_at = ap (λ kb. kb.status.last_failure_time) same ∙ ap some (still u2.log);
        stored =
            subst (λ kb. Accepted s (update_status kb.status) end.log) (sym same)
              (law.stored (status_update-succeeds s taking z));
        deleted = status_update-Keeps s _ st z (clear-Keeps s _ (by_calls st) p read.1 asked);
      }

  judge_active-clears :
      (j : Job) (chash secrets_hash : Text) (v : Pass KnowledgeBase)
      → is_empty chash ≡ false
      → IsCurrent s j true chash secrets_hash v.object
      → v.object.status.observed_secrets_hash ≡ secrets_hash
      → judge_active p s j chash secrets_hash v ≡ clear_stuck p s j chash v
  unfolding judge_active time_now
  judge_active-clears j chash secrets_hash v filled cur seen =
      let observed = v.object.status.observed_spec_hash in
      let ok =
        subst (λ o. active_ingest_is_stale j chash secrets_hash observed o ≡ false) (sym seen)
          (fresh j chash secrets_hash observed filled cur.spec cur.secrets) in
      rw (ok, cur.timed v.log) refl

  waits :
      (kb : KnowledgeBase) (chash : Text) (now : Time)
      → kb.status.phase ≡ Phase.failed
      → kb.status.last_failed_spec_hash ≡ chash
      → kb.status.last_failure_time ≡ some now
      → ingest_failure_retry_after kb chash now ≡ ingest_failure_retry_delay
  unfolding ingest_failure_retry_after is_failed_phase
  waits kb chash now failed same then =
      rw (then, failed, same, text_eq_refl chash, ingest_failure_retry_after) (omega arith)

  finish_active-waits :
      (eff : ChunkingSpec) (j : Text) (chash secrets_hash : Text) (v : Pass KnowledgeBase)
      → GivesUp s j chash at v
      → finish_active p s eff chash secrets_hash v ≡ (requeue_after (5 * minute), v)
  unfolding finish_active decide time_now
  finish_active-waits eff j chash secrets_hash v g =
      let wait : ingest_failure_retry_after v.object chash (s.now v.log) ≡ 5 * minute =
        ap (ingest_failure_retry_after v.object chash) (still v.log)
        ∙ waits v.object chash at g.phase g.failed_hash g.failed_at in
      rw (ap is_empty g.idle, wait, finish_active) refl

  work-GivesUp :
      (w : Pass KnowledgeBase) (j : Job) (chash secrets_hash : Text)
      → is_empty chash ≡ false
      → is_empty j.name ≡ false
      → text_eq j.name (w.object.name ++ codes "-cleanup") ≡ false
      → ((h : History) → s.job h j.name ≡ j)
      → (compute_secrets_hash s p w).0 ≡ secrets_hash
      → Staged p s j true chash secrets_hash w
      → (v : Pass KnowledgeBase) × GivesUp s j.name chash at v
        × (work p s w ≡ (requeue_after (5 * minute), v))
  work-GivesUp w j chash secrets_hash filled named working known keyed law =
      let v = staged p s w in
      let u : Pass KnowledgeBase = record v { log = get_job v.object.status.active_job ∷ v.log } in
      let c = clear_stuck p s j chash u in
      let active1 = law.current.active in
      let other : text_eq v.object.status.active_job (v.object.name ++ codes "-cleanup") ≡ false =
        ap (λ x. text_eq x (v.object.name ++ codes "-cleanup")) active1
        ∙ ap (λ x. text_eq j.name (x ++ codes "-cleanup")) law.name
        ∙ working in
      let same : check_active p s chash secrets_hash v ≡ c =
        check_active-found p s taking j chash secrets_hash v (ap is_empty active1 ∙ named) other
          (ap (s.job v.log) active1 ∙ known v.log)
        ∙ judge_active-clears j chash secrets_hash u filled law.current law.seen in
      let good = ap (λ r. r.0) same ∙ clear_stuck-good j chash u in
      let g = clear_stuck-GivesUp j chash u in
      (
        c.1,
        g,
        work-checked p s w chash secrets_hash law.hash keyed good
            ∙ ap (λ r. finish_active p s (effective_chunking v.object) chash secrets_hash r.1) same
            ∙ finish_active-waits (effective_chunking v.object) j.name chash secrets_hash c.1 g,
      )

  -- A Job is given up for its age alone, whether it is complete or not. Against a server that refuses
  -- nothing and on a clock that stands still, a pass over a KnowledgeBase that is neither being deleted nor
  -- suspended and has the finalizer, whose active Job is no cleanup Job, was made for the hash of the spec
  -- and of the credentials as they are and is past its deadline and the ten minutes behind it, ends with
  -- the phase failed, for that hash, and no active Job, in a status that the server took, with the deletion
  -- of the Job taken, and with the next pass in five minutes.
  pub reconcile-GivesUp :
      (w : Pass KnowledgeBase) (j : Job) (secrets_hash : Text)
      → w.object.deleting ≡ false
      → w.object.has_finalizer ≡ true
      → w.object.spec.suspend ≡ false
      → ((h : History) → (compute_secrets_hash s p (record w { log = h })).0 ≡ secrets_hash)
      → is_empty (corpus_hash p w.object) ≡ false
      → is_empty j.name ≡ false
      → text_eq j.name (w.object.name ++ codes "-cleanup") ≡ false
      → ((h : History) → s.job h j.name ≡ j)
      → IsCurrent s j true (corpus_hash p w.object) secrets_hash w.object
      → ((reconcile p s w).0 ≡ requeue_after (5 * minute))
        × GivesUp s j.name (corpus_hash p w.object) at (reconcile p s w).1
  reconcile-GivesUp w j secrets_hash alive held off keyed filled named working known cur =
      let chash = corpus_hash p w.object in
      let on = reconcile-Works p s (λ h c plain. taking h c) w alive held off in
      let same = on.same_object in
      let u = on.from in
      let keyed1 : (compute_secrets_hash s p u).0 ≡ secrets_hash =
        subst
          (λ kb. (compute_secrets_hash s p (record { object = kb; log = u.log })).0 ≡ secrets_hash)
          (sym same) (keyed u.log) in
      let cur1 = subst (IsCurrent s j true chash secrets_hash) (sym same) cur in
      let law = staged_lem p s u j true chash secrets_hash (ap (corpus_hash p) same) keyed1 cur1 in
      let ends =
        work-GivesUp u j chash secrets_hash filled named
          (subst (λ kb. text_eq j.name (kb.name ++ codes "-cleanup") ≡ false) (sym same) working)
          known keyed1 law in
      (
        ap (λ r. r.0) (on.working ∙ ends.2),
        subst (λ r. GivesUp s j.name chash at r.1) (sym (on.working ∙ ends.2)) ends.1,
      )
