-- ===== src/Reconcile/Flight.antt =====
-- A whole pass starts one Job at most, and none beside another.
use kuberag.History.Keeps.{by_calls}
pub mod Tests
use kuberag.Prelude.{
  Option-cases, Text, ◌*◌, ◌≡◌, refl, sym, ◌⊎◌, inl, inr, Bool, true, false, [], ◌∷◌, arith,
}
use mathlib.Core.Path.{subst}
use kuberag.Platform.{Platform}
use kuberag.Api.KnowledgeBase.{
  KnowledgeBase, Phase, ready_condition, resource_quota_exceeded, suspended_reason,
  worker_service_account_unavailable,
}
use kuberag.Cluster.{
  Server, Pass, M, History, ApiError, Outcome, done, attempt, call, event, update_finalizer,
  requeue_after, second,
}
use kuberag.History.Launches.{Frees, Frees-refl, Frees-IsLoose}
use kuberag.Status.{set_condition, with_status}
use kuberag.Status.Keeps.{status_update-Keeps, update_and_return-Keeps}
use kuberag.Secrets.{compute_secrets_hash}
use kuberag.Secrets.Keeps.{compute_secrets_hash-Keeps}
use kuberag.Chunking.{effective_chunking}
use kuberag.Identity.{validate_custom_worker_service_account, ensure_worker_identity}
use kuberag.Identity.Keeps.{validate-Keeps, ensure_worker_identity-Keeps}
use kuberag.Decisions.{corpus_hash}
use kuberag.Reconcile.{
  drop_override, pend_or_fail, pending_on_quota, suspend, mark_suspended, work, check_active,
  suspend_or_work, with_index, ensure_vector_index, with_identity, prepare,
  wait_for_service_account, add_finalizer, reconcile,
}
use kuberag.Reconcile.Cancelling.{check_active-Vacates}
use kuberag.Reconcile.Vacancy.{Holds, Holds-IsSteady, Holds-refl, Holds-Vacates, Vacates-Frees}
use kuberag.Reconcile.Deciding.{SingleFlight, finish_active-SingleFlight, drop_override-active}

module _ (p : Platform) (s : Server) where
  Held-Frees : {w u : Pass KnowledgeBase} → Holds w u → Frees w u
  Held-Frees v = Vacates-Frees (Holds-Vacates s v)

  -- A step that keeps the active Job, and then starts one Job at most.
  abbrev Flies : M KnowledgeBase Outcome → Type 0
  Flies m = (w u : Pass KnowledgeBase) → Holds w u → SingleFlight s w (m u).1

  pend_or_fail-Flies : (e : ApiError) → Flies (pend_or_fail p s e)
  unfolding pend_or_fail pending_on_quota attempt set_condition
  pend_or_fail-Flies e w u k =
      let st = (Frees-IsLoose w).steady in
      let kb =
        set_condition p ready_condition false resource_quota_exceeded
          (with_status (λ t. record t { phase = Phase.pending }) u.object) in
      let here = Held-Frees k in
      let kept = status_update-Keeps s (Frees w) st _ (st.changed u.object kb u.log refl here) in
      let told = st.called (event true resource_quota_exceeded) _ _ refl kept in
      let over : Frees w (pend_or_fail p s e u).1 = ground arith in inl over

  suspend-Flies : (phase : Phase) → Flies (suspend p s phase)
  unfolding suspend mark_suspended set_condition
  suspend-Flies phase w u k =
      let st = (Frees-IsLoose w).steady in
      let kb =
        set_condition p ready_condition false suspended_reason
          (with_status (λ t. record t { phase = Phase.suspended }) u.object) in
      let here = Held-Frees k in
      let kept =
        update_and_return-Keeps s (Frees w) st done _ (st.changed u.object kb u.log refl here) in
      let over : Frees w (suspend p s phase u).1 = ground arith in inl over

module _ (p : Platform) (s : Server)
    (named : (h : History) (name : Text) → (s.job h name).name ≡ name) where
  work-Flies : Flies p s (work p s)
  unfolding work
  work-Flies w u k =
      let st = Holds-IsSteady w in
      let m = compute_secrets_hash s p u in
      let hashed = compute_secrets_hash-Keeps s (Holds w) st p u k in
      let chash = corpus_hash p m.1.object in
      let kb =
        drop_override chash
          (with_status (λ t. record t { observed_secrets_hash = m.0 }) m.1.object) in
      let v : Pass KnowledgeBase = record { object = kb; log = m.1.log } in
      let ready = st.changed m.1.object kb m.1.log (drop_override-active p s chash _) hashed in
      let c = check_active p s chash m.0 v in
      let checked = check_active-Vacates p s w named chash m.0 v ready.1 (Holds-Vacates s ready) in
      elim (Option-cases c.0) [
        | inr (e, bad) ↦ rw (bad, work) (inl (Vacates-Frees checked))
        | inl good ↦
            rw (good, work)
              (finish_active-SingleFlight p s (effective_chunking kb) chash m.0 c.1 checked)
      ]

  suspend_or_work-Flies : (b : Bool) (phase : Phase) → Flies p s (suspend_or_work p s b phase)
  unfolding suspend_or_work
  suspend_or_work-Flies true phase = suspend-Flies p s phase
  suspend_or_work-Flies false phase = work-Flies

  with_index-Flies : Flies p s (with_index p s)
  unfolding with_index ensure_vector_index call
  with_index-Flies w u k =
      let m = ensure_vector_index p s u in
      let indexed : Holds w m.1 = (Holds-IsSteady w).called _ u.object u.log refl k in
      elim (Option-cases m.0) [
        | inr (e, bad) ↦ rw (bad, with_index) (pend_or_fail-Flies p s e w m.1 indexed)
        | inl good ↦ rw (good, with_index) (suspend_or_work-Flies _ _ w m.1 indexed)
      ]

  with_identity-Flies : Flies p s (with_identity p s)
  unfolding with_identity
  with_identity-Flies w u k =
      let m = ensure_worker_identity s p [] u in
      let known = ensure_worker_identity-Keeps s (Holds w) (by_calls (Holds-IsSteady w)) p [] u k in
      elim (Option-cases m.0) [
        | inr (e, bad) ↦ rw (bad, with_identity) (pend_or_fail-Flies p s e w m.1 known)
        | inl good ↦ rw (good, with_identity) (with_index-Flies w m.1 known)
      ]

  prepare-Flies : Flies p s (prepare p s)
  unfolding prepare wait_for_service_account set_condition
  prepare-Flies w u k =
      let m = validate_custom_worker_service_account s u in
      let valid = validate-Keeps s (Holds w) (by_calls (Holds-IsSteady w)) u k in
      let fs = (Frees-IsLoose w).steady in
      let kb =
        set_condition p ready_condition false worker_service_account_unavailable
          (with_status (λ st. record st { phase = Phase.pending }) m.1.object) in
      let waits =
        update_and_return-Keeps s (Frees w) fs (requeue_after (30 * second)) _
          (fs.changed m.1.object kb m.1.log refl (Held-Frees p s valid)) in
      elim (Option-cases m.0) [
        | inr (e, bad) ↦ rw (bad, prepare) (inl waits)
        | inl good ↦ rw (good, prepare) (with_identity-Flies w m.1 valid)
      ]

  abbrev finalized : Pass KnowledgeBase → Pass KnowledgeBase
  finalized w = record {
    object = record (w.object) { has_finalizer = true };
    log = update_finalizer true ∷ w.log;
  }

  reconcile_or_prepare :
      (w : Pass KnowledgeBase)
      → w.object.deleting ≡ false
      → ((reconcile p s w).1 ≡ finalized w) ⊎ (reconcile p s w ≡ prepare p s w)
  unfolding reconcile add_finalizer call
  reconcile_or_prepare w alive = ground arith

  -- A pass over a KnowledgeBase that is not being deleted starts one Job at most, and none beside
  -- another: where it asks for a Job, none was active before the pass, or in the pass the deletion of the
  -- active one had been called for, or the server had answered that it does not know it; the new Job is
  -- the active one afterwards only where the server took it, and where none is asked for, the active Job
  -- is the same or none. The server is one that reads a Job under its own name.
  pub reconcile-SingleFlight :
      (w : Pass KnowledgeBase) → w.object.deleting ≡ false → SingleFlight s w (reconcile p s w).1
  reconcile-SingleFlight w alive = elim (reconcile_or_prepare w alive) [
    | inl added ↦
        let st = (Frees-IsLoose w).steady in
        let kb = record (w.object) { has_finalizer = true } in
        subst (SingleFlight s w) (sym added) (
          inl (
            st.called (update_finalizer true) kb w.log refl
              (st.changed w.object kb w.log refl (Frees-refl w))))
    | inr same ↦ subst (λ out. SingleFlight s w out.1) (sym same) (prepare-Flies w w (Holds-refl w))
  ]
