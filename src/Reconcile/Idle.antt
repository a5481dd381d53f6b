-- ===== src/Reconcile/Idle.antt =====
-- The pass over a KnowledgeBase whose spec has `suspend`.
use kuberag.Prelude.{
  Bool-cases, Option-cases, ◌≡◌, refl, ap, ◌∙◌, ◌⊎◌, inl, inr, Bool, true, false, [], arith,
}
use kuberag.Platform.{Platform}
use kuberag.Api.KnowledgeBase.{KnowledgeBase, Phase, ready_condition, resource_quota_exceeded}
use kuberag.Cluster.{is_quota_exceeded, done, Server, ApiError, M, Pass, call, attempt, Outcome}
use kuberag.History.{Quiet, jobs_created, deletions}
use kuberag.Status.{update_and_return, status_update, set_condition, with_status}
use kuberag.Status.Saving.{status_update-Saves, update_and_return-Quiet}
use kuberag.Identity.{validate_custom_worker_service_account, ensure_worker_identity}
use kuberag.Identity.Calls.{validate-Quiet, ensure_worker_identity-Quiet}
use kuberag.Reconcile.{
  ensure_vector_index, pending_on_quota, pend_or_fail, wait_for_service_account, mark_suspended,
  suspend, suspend_or_work, with_index, with_identity, prepare, add_finalizer, reconcile,
}

-- The history grew by calls that delete nothing of a finished Job's and create no Job.
record Idles (w w' : Pass KnowledgeBase) : Type 0 where
  no_deletions : deletions w'.log ≡ deletions w.log
  no_jobs : jobs_created w'.log ≡ jobs_created w.log

module _ (p : Platform) (s : Server) where
  abbrev Idle : {A : Type 0} → M KnowledgeBase A → Type 0
  Idle m = (w : Pass KnowledgeBase) → Idles w (m w).1

  forget_object : {w w' : Pass KnowledgeBase} → Quiet w w' → Idles w w'
  forget_object q = record { no_deletions = q.no_deletions; no_jobs = q.no_jobs }

  set_status-Idle :
      (kb : KnowledgeBase) (out : Outcome) (w : Pass KnowledgeBase)
      → Idles w (update_and_return s out (record w { object = kb })).1
  set_status-Idle kb out w =
      let q = update_and_return-Quiet s out (record w { object = kb }) in
      record { no_deletions = q.no_deletions; no_jobs = q.no_jobs }

  suspend-Idle : (phase : Phase) → Idle (suspend p s phase)
  unfolding suspend mark_suspended
  suspend-Idle Phase.suspended w = record { no_deletions = refl; no_jobs = refl }
  suspend-Idle Phase.unset w = set_status-Idle _ done w
  suspend-Idle Phase.pending w = set_status-Idle _ done w
  suspend-Idle Phase.ingesting w = set_status-Idle _ done w
  suspend-Idle Phase.ready w = set_status-Idle _ done w
  suspend-Idle Phase.degraded w = set_status-Idle _ done w
  suspend-Idle Phase.failed w = set_status-Idle _ done w

  -- A step that idles on every KnowledgeBase with `suspend`.
  abbrev Rests : M KnowledgeBase Outcome → Type 0
  Rests m = (w : Pass KnowledgeBase) → w.object.spec.suspend ≡ true → Idles w (m w).1

  pending_on_quota-Idle : Idle (pending_on_quota p s)
  unfolding pending_on_quota attempt
  pending_on_quota-Idle w =
      let kb =
        set_condition p ready_condition false resource_quota_exceeded
          (with_status (λ st. record st { phase = Phase.pending }) w.object) in
      let u = record w { object = kb } in
      let q = (status_update-Saves s u).quiet in
      elim (Option-cases (status_update s u).0) [
        | inl good ↦
            rw (good, pending_on_quota)
              (record {
                no_deletions = omega (arith, q.no_deletions);
                no_jobs = omega (arith, q.no_jobs);
              })
        | inr (e, bad) ↦
            rw (bad, pending_on_quota)
              (record { no_deletions = q.no_deletions; no_jobs = q.no_jobs })
      ]

  pend_or_fail-Idle : (e : ApiError) → Idle (pend_or_fail p s e)
  unfolding pend_or_fail
  pend_or_fail-Idle e w = elim (Bool-cases (is_quota_exceeded e)) [
    | inl quota ↦ rw quota (pending_on_quota-Idle w)
    | inr otherwise ↦ rw otherwise (record { no_deletions = refl; no_jobs = refl })
  ]

  suspend_or_work-Idle :
      (b : Bool) (phase : Phase) (w : Pass KnowledgeBase)
      → b ≡ true
      → Idles w (suspend_or_work p s b phase w).1
  unfolding suspend_or_work
  suspend_or_work-Idle true phase w on = suspend-Idle phase w
  suspend_or_work-Idle false phase w on = cc

  Idles-trans : {u v w : Pass KnowledgeBase} → Idles u v → Idles v w → Idles u w
  Idles-trans a b = record {
    no_deletions = b.no_deletions ∙ a.no_deletions;
    no_jobs = b.no_jobs ∙ a.no_jobs;
  }

  with_index-Rests : Rests (with_index p s)
  unfolding with_index
  with_index-Rests w on = elim (Option-cases (ensure_vector_index p s w).0) [
    | inl good ↦
        rw (good, with_index)
          (Idles-trans (forget_object (indexed w)) (
            suspend_or_work-Idle _ _ (ensure_vector_index p s w).1
              (ap (λ kb. kb.spec.suspend) (indexed w).same_object ∙ on)))
    | inr (e, bad) ↦
        rw (bad, with_index)
          (Idles-trans (forget_object (indexed w))
            (pend_or_fail-Idle e (ensure_vector_index p s w).1))
  ]
    where
      indexed : (w : Pass KnowledgeBase) → Quiet w (ensure_vector_index p s w).1
      indexed w = unfold ensure_vector_index call in ground arith

  with_identity-Rests : Rests (with_identity p s)
  unfolding with_identity
  with_identity-Rests w on =
      let m = ensure_worker_identity s p [] w in
      let q = ensure_worker_identity-Quiet s p [] w in
      elim (Option-cases m.0) [
        | inl good ↦
            rw (good, with_identity)
              (Idles-trans (forget_object q)
                (with_index-Rests m.1 (ap (λ kb. kb.spec.suspend) q.same_object ∙ on)))
        | inr (e, bad) ↦
            rw (bad, with_identity) (Idles-trans (forget_object q) (pend_or_fail-Idle e m.1))
      ]

  prepare-Rests : Rests (prepare p s)
  unfolding prepare
  prepare-Rests w on =
      let m = validate_custom_worker_service_account s w in
      let q = validate-Quiet s w in
      elim (Option-cases m.0) [
        | inl good ↦
            rw (good, prepare)
              (Idles-trans (forget_object q)
                (with_identity-Rests m.1 (ap (λ kb. kb.spec.suspend) q.same_object ∙ on)))
        | inr (e, bad) ↦
            rw (bad, prepare)
              (Idles-trans (forget_object q)
                (unfold wait_for_service_account in set_status-Idle _ _ m.1))
      ]

  reconcile_or_prepare :
      (w : Pass KnowledgeBase)
      → w.object.deleting ≡ false
      → Idles w (reconcile p s w).1 ⊎ (reconcile p s w ≡ prepare p s w)
  unfolding reconcile add_finalizer call
  reconcile_or_prepare w alive = ground arith

  -- A pass over a KnowledgeBase that is not being deleted and whose spec has `suspend` deletes no Job
  -- and no ConfigMap of one and creates no Job, whatever the server answers.
  pub reconcile-Idles :
      (w : Pass KnowledgeBase)
      → w.object.deleting ≡ false
      → w.object.spec.suspend ≡ true
      → (deletions (reconcile p s w).1.log ≡ deletions w.log)
        × (jobs_created (reconcile p s w).1.log ≡ jobs_created w.log)
  reconcile-Idles w alive on = elim (reconcile_or_prepare w alive) [
    | inl idle ↦ (idle.no_deletions, idle.no_jobs)
    | inr same ↦
        let rests = prepare-Rests w on in
        (
          ap (λ out. deletions out.1.log) same ∙ rests.no_deletions,
          ap (λ out. jobs_created out.1.log) same ∙ rests.no_jobs,
        )
  ]
