-- ===== src/Retriever/Apply/Effects.antt =====
-- What the server has seen once the objects of a Retriever were applied, or removed, without an error.
use kuberag.Prelude.{Text, Option, ◌++◌}
use kuberag.Api.Retriever.{Retriever}
use kuberag.Api.Workloads.{
  Deployment, Service, Workload, service, WorkloadKind, deployments, services, ingresses,
  network_policies, pod_disruption_budgets, autoscalers,
}
use kuberag.Cluster.{Server, History, ApiError, M, call, set_controller_reference}
use kuberag.History.{Past-append}
use kuberag.Identity.{◌before◌}
use kuberag.Retriever.{autoscaling_enabled, workload_name}
use kuberag.Retriever.Objects.{desired_service, desired_metrics_service, policy_name}
use kuberag.Retriever.Apply.{
  Live, remove, apply_service, settle, wanted_ingress, wanted_policy, wanted_budget,
  wanted_autoscaler, reconcile_ingress, reconcile_oidc_network_policy, reconcile_budget,
  reconcile_autoscaler, apply_objects, remove_retriever_workload,
}
use kuberag.Retriever.Apply.Steps.{
  Ensures, before-Ensures, Applied, Removed, Deployed, Settled, Applied-append, Applied-stays,
  Removed-stays, remove-Ensures, own-Ensures, apply_object-Ensures, Settled-append, Settled-stays,
  settle-Ensures, apply_deployment-Ensures,
}

module _ (s : Server) where
  -- Every object of a Retriever is as the spec wants it.
  pub record AllSettled (rt : Retriever) (dep : Deployment) (h : History) : Type 0 where
    pub deployed : Deployed s dep (autoscaling_enabled rt) h
    pub served : Applied s (service (desired_service rt)) h
    pub scraped : Applied s (service (desired_metrics_service rt)) h
    pub routed : Settled s ingresses (workload_name rt) (wanted_ingress rt) h
    pub shielded : Settled s network_policies (policy_name rt) (wanted_policy rt) h
    pub budgeted : Settled s pod_disruption_budgets (workload_name rt) (wanted_budget rt) h
    pub scaled : Settled s autoscalers (workload_name rt) (wanted_autoscaler rt) h

  weaken :
      {m : M Retriever (Option ApiError)} {Q R : History → Type 0}
      → Ensures m Q
      → ((h : History) → Q h → R h)
      → Ensures m R
  weaken e f = record { adds = e.adds; holds = λ w h. f _ (e.holds w h) }

  apply_service-Ensures : (svc : Service) → Ensures (apply_service s svc) (Applied s (service svc))
  unfolding apply_service
  apply_service-Ensures svc = apply_object-Ensures s services svc.name (service svc)

  settle_then :
      {k : M Retriever (Option ApiError)} {R : History → Type 0} (kind : WorkloadKind) (name : Text)
      (o : Option Workload)
      → Ensures k R
      → Ensures (settle s kind name o before k) (λ h. Settled s kind name o h × R h)
  settle_then kind name o =
      before-Ensures (Settled-stays s kind name o) (settle-Ensures s kind name o)

  service_then :
      {k : M Retriever (Option ApiError)} {R : History → Type 0} (svc : Service)
      → Ensures k R
      → Ensures
          (call s (set_controller_reference svc.name) before (apply_service s svc before k))
          (λ h. Applied s (service svc) h × R h)
  service_then svc e =
      own-Ensures s svc.name
        (before-Ensures (Applied-stays s (service svc)) (apply_service-Ensures svc) e)

  pub apply_objects-Ensures :
      (live : Live) (rt : Retriever) (dep : Deployment)
      → Ensures (apply_objects s live rt dep) (AllSettled rt dep)
  unfolding apply_objects reconcile_ingress reconcile_oidc_network_policy reconcile_budget
      reconcile_autoscaler
  apply_objects-Ensures live rt dep =
      weaken
        (own-Ensures s dep.name (
          before-Ensures (λ u w a d. (d.0, d.1, Applied-stays s _ u w a d.2))
            (apply_deployment-Ensures s live dep (autoscaling_enabled rt))
            (service_then (desired_service rt) (
              service_then (desired_metrics_service rt) (
                settle_then ingresses (workload_name rt) (wanted_ingress rt) (
                  settle_then network_policies (policy_name rt) (wanted_policy rt) (
                    settle_then pod_disruption_budgets (workload_name rt) (wanted_budget rt) (
                      settle-Ensures s autoscalers (workload_name rt) (wanted_autoscaler rt)))))))))
        (λ h (a, (b, (c, (d, (e, (f, g)))))). record {
          deployed = a;
          served = b;
          scraped = c;
          routed = d;
          shielded = e;
          budgeted = f;
          scaled = g;
        })

  pub AllSettled-append :
      (rt : Retriever) (dep : Deployment) (k h : History)
      → AllSettled rt dep h
      → AllSettled rt dep (k ++ h)
  AllSettled-append rt dep k h a = record {
    deployed = (a.deployed.0, a.deployed.1, Applied-append s _ k h a.deployed.2);
    served = Applied-append s _ k h a.served;
    scraped = Applied-append s _ k h a.scraped;
    routed = Settled-append s _ _ _ k h a.routed;
    shielded = Settled-append s _ _ _ k h a.shielded;
    budgeted = Settled-append s _ _ _ k h a.budgeted;
    scaled = Settled-append s _ _ _ k h a.scaled;
  }

  pub record WorkloadRemoved (rt : Retriever) (h : History) : Type 0 where
    pub no_deployment : Removed s deployments (workload_name rt) h
    pub no_autoscaler : Removed s autoscalers (workload_name rt) h
    pub no_budget : Removed s pod_disruption_budgets (workload_name rt) h
    pub no_ingress : Removed s ingresses (workload_name rt) h
    pub no_policy : Removed s network_policies (policy_name rt) h

  pub WorkloadRemoved-append :
      (rt : Retriever) (k h : History) → WorkloadRemoved rt h → WorkloadRemoved rt (k ++ h)
  WorkloadRemoved-append rt k h a = record {
    no_deployment = Past-append _ _ k h a.no_deployment;
    no_autoscaler = Past-append _ _ k h a.no_autoscaler;
    no_budget = Past-append _ _ k h a.no_budget;
    no_ingress = Past-append _ _ k h a.no_ingress;
    no_policy = Past-append _ _ k h a.no_policy;
  }

  remove_then :
      {k : M Retriever (Option ApiError)} {R : History → Type 0} (kind : WorkloadKind) (name : Text)
      → Ensures k R
      → Ensures (remove s kind name before k) (λ h. Removed s kind name h × R h)
  remove_then kind name = before-Ensures (Removed-stays s kind name) (remove-Ensures s kind name)

  pub remove_retriever_workload-Ensures :
      (rt : Retriever) → Ensures (remove_retriever_workload s rt) (WorkloadRemoved rt)
  unfolding remove_retriever_workload
  remove_retriever_workload-Ensures rt =
      let name = workload_name rt in
      weaken
        (remove_then deployments name (
          remove_then autoscalers name (
            remove_then pod_disruption_budgets name
              (remove_then ingresses name (remove-Ensures s network_policies (policy_name rt))))))
        (λ h (a, (b, (c, (d, e)))). record {
          no_deployment = a;
          no_autoscaler = b;
          no_budget = c;
          no_ingress = d;
          no_policy = e;
        })
