-- ===== src/Retriever/Pass/Phases.antt =====
-- What the phases of a Retriever stand for.
use kuberag.Prelude.{
  Text, ℕ, ◌≤◌, ◌<◌, ◌≡◌, refl, sym, ap, ◌∙◌, ◌≢◌, Bool, true, Option, some, arith,
}
use kuberag.Platform.{Platform}
use mathlib.Core.Path.{subst}
use kuberag.Api.KnowledgeBase.{KnowledgeBase, Reason}
use kuberag.Api.Retriever.{Retriever, pending, available}
use kuberag.Api.Workloads.{Deployment}
use kuberag.Cluster.{Server, Pass, Got, found, done}
use kuberag.VectorIndex.{VectorIndexHealth, missing, degraded}
use kuberag.Retriever.{desired_minimum_replicas}
use kuberag.Retriever.Secrets.{checked_refs}
use kuberag.Retriever.Secrets.Checks.{AllHeld}
use kuberag.Retriever.Deployment.{desired_deployment}
use kuberag.Retriever.Apply.{Live}
use kuberag.Retriever.Apply.Effects.{AllSettled, WorkloadRemoved}
use kuberag.Retriever.Pass.{enter, withheld, observed, index_ok, judged, reconcile}
use kuberag.Retriever.Pass.Outcomes.{Stored, Counted, Probed, Ends, serving, withheld_for}
use kuberag.Retriever.Pass.Ends.{reconcile-Ends}

module _ (p : Platform) (s : Server) (live : Live) where
  -- A Retriever behind which everything is in place.
  pub record Serves (rt : Retriever) (w : Pass Retriever) : Type 0 where
    pub kb : KnowledgeBase
    pub secrets : AllHeld s (checked_refs rt kb) w.log
    pub hash : Text
    pub dep : Deployment
    pub rendered : desired_deployment p rt kb hash ≡ some dep
    pub settled : AllSettled s rt dep w.log
    pub counted : Counted p s live dep w.object.status.ready_replicas w.log
    pub enough : desired_minimum_replicas rt ≤ w.object.status.ready_replicas
    pub asked : 0 < desired_minimum_replicas rt
    pub index : Got (Option VectorIndexHealth)
    pub probed : Probed p s live kb index w.log
    pub not_missing : index ≢ found (some missing)
    pub not_degraded : index ≢ found (some degraded)

  index_ok-not :
      (index : Got (Option VectorIndexHealth))
      → index_ok index ≡ true
      → (index ≢ found (some missing)) × (index ≢ found (some degraded))
  unfolding index_ok
  index_ok-not index h = ground arith

  judged-available :
      (ready : ℕ) (ok : Bool) (rt : Retriever)
      → (judged p ready ok (observed ready rt)).status.phase ≡ available
      → (desired_minimum_replicas rt ≤ ready) × (0 < desired_minimum_replicas rt) × (ok ≡ true)
  unfolding judged enter observed desired_minimum_replicas
  judged-available ready ok rt h = ground arith

  judged-ready :
      (ready : ℕ) (ok : Bool) (rt : Retriever)
      → (judged p ready ok (observed ready rt)).status.ready_replicas ≡ ready
  unfolding judged enter observed
  judged-ready ready ok rt = ground arith

  withheld-pending :
      (reason : Reason) (rt : Retriever) → (withheld p reason rt).status.phase ≡ pending
  unfolding withheld enter
  withheld-pending reason rt = refl

  judged-not_pending :
      (ready : ℕ) (ok : Bool) (rt : Retriever) → (judged p ready ok rt).status.phase ≢ pending
  unfolding judged enter
  judged-not_pending ready ok rt h = ground arith

  Ends-Serves :
      (rt : Retriever) (w : Pass Retriever)
      → Ends p s live rt w
      → w.object.status.phase ≡ available
      → Serves rt w
  Ends-Serves rt w (serving e) h =
      let good =
        judged-available e.ready (index_ok e.index) rt
          (ap (λ o. o.status.phase) (sym e.status) ∙ h) in
      let same : e.ready ≡ w.object.status.ready_replicas =
        sym (
          ap (λ o. o.status.ready_replicas) e.status
          ∙ judged-ready e.ready (index_ok e.index) rt) in
      let index = index_ok-not e.index good.2 in
      record {
        kb = e.kb;
        secrets = e.secrets;
        hash = e.hash;
        dep = e.dep;
        rendered = e.rendered;
        settled = e.settled;
        counted = subst (λ n. Counted p s live e.dep n w.log) same e.counted;
        enough = subst (λ n. desired_minimum_replicas rt ≤ n) same good.0;
        asked = good.1;
        index = e.index;
        probed = e.probed;
        not_missing = index.0;
        not_degraded = index.1;
      }
  Ends-Serves rt w (withheld_for reason e removed) h =
      let clash : pending ≡ available =
        sym (ap (λ o. o.status.phase) e ∙ withheld-pending reason rt) ∙ h in
      cc

  -- A Retriever is Available only where, in the same pass, every Secret that validateRetrieverSecrets checks
  -- was read with a value that is not empty: those of the store and the embedding of its KnowledgeBase, of
  -- its own API key, of the rate limit and the generation where these use one, and of OIDC. The server took the rendered Deployment, both
  -- Services, and the Ingress, NetworkPolicy, budget and autoscaler that the spec wants, or none of
  -- those that it does not want; and the replicas that it reports ready are those that the server
  -- told, at least the minimum, which is not 0, while the VectorIndex was neither Missing nor
  -- Degraded. The server took the status.
  pub reconcile-Serves :
      (w : Pass Retriever)
      → (reconcile p s live w).0 ≡ done
      → (reconcile p s live w).1.object.status.phase ≡ available
      → Stored p s live (reconcile p s live w).1 × Serves w.object (reconcile p s live w).1
  reconcile-Serves w h phase =
      let (stored, ends) = reconcile-Ends p s live w h in
      (stored, Ends-Serves w.object (reconcile p s live w).1 ends phase)

  Ends-WorkloadRemoved :
      (rt : Retriever) (w : Pass Retriever)
      → Ends p s live rt w
      → w.object.status.phase ≡ pending
      → WorkloadRemoved s rt w.log
  Ends-WorkloadRemoved rt w (serving e) h = absurd (
      judged-not_pending e.ready (index_ok e.index) (observed e.ready rt)
        (ap (λ o. o.status.phase) (sym e.status) ∙ h))
  Ends-WorkloadRemoved rt w (withheld_for reason e removed) h = removed

  -- A pass that ends without an error in the phase Pending has deleted the Deployment, the
  -- autoscaler, the budget, the Ingress and the NetworkPolicy, or found that they were not there, and
  -- the server took the status.
  pub reconcile-Withholds :
      (w : Pass Retriever)
      → (reconcile p s live w).0 ≡ done
      → (reconcile p s live w).1.object.status.phase ≡ pending
      → Stored p s live (reconcile p s live w).1
        × WorkloadRemoved s w.object (reconcile p s live w).1.log
  reconcile-Withholds w h phase =
      let (stored, ends) = reconcile-Ends p s live w h in
      (stored, Ends-WorkloadRemoved w.object (reconcile p s live w).1 ends phase)
