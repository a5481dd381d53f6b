-- ===== src/Reconcile/Working.antt =====
-- The front of Reconcile, against a server that takes all ordinary calls.
use kuberag.Prelude.{◌≡◌, refl, ap, ◌∙◌, Bool, true, false, none, [], arith}
use kuberag.Platform.{Platform}
use kuberag.Api.KnowledgeBase.{KnowledgeBase, Phase}
use kuberag.Cluster.{Server, Pass, M, call, Outcome}
use kuberag.History.{Takes}
use kuberag.Identity.{validate_custom_worker_service_account, ensure_worker_identity}
use kuberag.Identity.Calls.{validate-Quiet, ensure_worker_identity-Quiet}
use kuberag.Identity.Success.{validate-Succeeds, ensure_worker_identity-Succeeds}
use kuberag.Reconcile.{
  work, suspend_or_work, with_index, ensure_vector_index, with_identity, prepare, reconcile,
}

-- A step goes on to computeSecretsHash with the object as it was.
pub record Works (p : Platform) (s : Server) (m : M KnowledgeBase Outcome) (w : Pass KnowledgeBase)
    : Type 0 where
  pub from : Pass KnowledgeBase
  pub same_object : from.object ≡ w.object
  pub working : m w ≡ work p s from

module _ (p : Platform) (s : Server) (takes : Takes s) where
  suspend_or_work-Works :
      (b : Bool) (phase : Phase) (w : Pass KnowledgeBase)
      → b ≡ false
      → Works p s (suspend_or_work p s b phase) w
  unfolding suspend_or_work
  suspend_or_work-Works true phase w off = cc
  suspend_or_work-Works false phase w off = record { from = w; same_object = refl; working = refl }

  with_index-Works :
      (w : Pass KnowledgeBase) → w.object.spec.suspend ≡ false → Works p s (with_index p s) w
  unfolding with_index ensure_vector_index call
  with_index-Works w off =
      let m = ensure_vector_index p s w in
      let good : m.0 ≡ none = takes w.log _ refl in
      let on = suspend_or_work-Works w.object.spec.suspend w.object.status.phase m.1 off in
      record {
        from = on.from;
        same_object = on.same_object;
        working = rw (good, with_index) on.working;
      }

  with_identity-Works :
      (w : Pass KnowledgeBase) → w.object.spec.suspend ≡ false → Works p s (with_identity p s) w
  unfolding with_identity
  with_identity-Works w off =
      let m = ensure_worker_identity s p [] w in
      let same = (ensure_worker_identity-Quiet s p [] w).same_object in
      let on = with_index-Works m.1 (ap (λ kb. kb.spec.suspend) same ∙ off) in
      record {
        from = on.from;
        same_object = on.same_object ∙ same;
        working = rw (ensure_worker_identity-Succeeds s takes p [] w, with_identity) on.working;
      }

  prepare-Works :
      (w : Pass KnowledgeBase) → w.object.spec.suspend ≡ false → Works p s (prepare p s) w
  unfolding prepare
  prepare-Works w off =
      let m = validate_custom_worker_service_account s w in
      let same = (validate-Quiet s w).same_object in
      let on = with_identity-Works m.1 (ap (λ kb. kb.spec.suspend) same ∙ off) in
      record {
        from = on.from;
        same_object = on.same_object ∙ same;
        working = rw (validate-Succeeds s takes w, prepare) on.working;
      }

  reconcile-prepare :
      (w : Pass KnowledgeBase)
      → w.object.deleting ≡ false
      → w.object.has_finalizer ≡ true
      → reconcile p s w ≡ prepare p s w
  unfolding reconcile
  reconcile-prepare w alive held = ground (arith, alive, held)

  pub reconcile-Works :
      (w : Pass KnowledgeBase)
      → w.object.deleting ≡ false
      → w.object.has_finalizer ≡ true
      → w.object.spec.suspend ≡ false
      → Works p s (reconcile p s) w
  reconcile-Works w alive held off =
      let on = prepare-Works w off in
      record {
        from = on.from;
        same_object = on.same_object;
        working = reconcile-prepare w alive held ∙ on.working;
      }
