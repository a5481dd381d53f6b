-- ===== src/Retriever/Apply.antt =====
-- How the Retriever controller brings its objects to the server: applyDeployment, applyService,
-- the reconcile functions of the other objects, and removeRetrieverWorkload.
pub mod Steps
pub mod Effects
pub mod Success
use kuberag.Prelude.{if◌then◌else◌, Text, ℕ, Bool, Option, none, some, ◌∷◌}
use kuberag.Api.Retriever.{Retriever, RetrieverIngressSpec, AutoscalingSpec}
use kuberag.Api.Workloads.{
  Deployment, Service, Workload, deployment, service, ingress, network_policy,
  pod_disruption_budget, autoscaler, WorkloadKind, deployments, services, ingresses,
  network_policies, pod_disruption_budgets, autoscalers,
}
use kuberag.Cluster.{
  ◌>>=◌, ◌>>◌, Server, History, ApiError, M, pure, call, answer, Got, found, refused, is_not_found,
  set_controller_reference, read_workload, create_workload, update_workload, delete_workload,
}
use kuberag.VectorIndex.{VectorIndexHealth}
use kuberag.Identity.{◌before◌}
use kuberag.Retriever.{autoscaling_enabled, oidc_enabled, workload_name}
use kuberag.Retriever.Objects.{
  desired_service, desired_metrics_service, desired_ingress, policy_name, desired_policy,
  budget_enabled, desired_budget, desired_autoscaler,
}

-- The objects that depend on the spec, `none` where it does not ask for them.
ingress_of : Retriever → Option RetrieverIngressSpec → Option Workload
ingress_of rt none = none
ingress_of rt (some i) = some (ingress (desired_ingress rt i))

unfoldable pub wanted_ingress : Retriever → Option Workload
unfolding ingress_of
wanted_ingress rt = ingress_of rt rt.spec.ingress

unfoldable pub wanted_policy : Retriever → Option Workload
wanted_policy rt = if oidc_enabled rt then some (network_policy (desired_policy rt)) else none

unfoldable pub wanted_budget : Retriever → Option Workload
wanted_budget rt =
    if budget_enabled rt then some (pod_disruption_budget (desired_budget rt)) else none

autoscaler_of : Retriever → Option AutoscalingSpec → Option Workload
autoscaler_of rt none = none
autoscaler_of rt (some a) =
    if autoscaling_enabled rt then some (autoscaler (desired_autoscaler rt a)) else none

unfoldable pub wanted_autoscaler : Retriever → Option Workload
unfolding autoscaler_of
wanted_autoscaler rt = autoscaler_of rt rt.spec.autoscaling

-- What a read of a Deployment or of a VectorIndex returns, where it succeeds.
pub record Live : Type 0 where
  pub replicas : History → Text → Option ℕ
  pub ready_replicas : History → Text → ℕ
  pub index_health : History → Text → Option VectorIndexHealth

unfoldable pub ignore_not_found : Option ApiError → Option ApiError
ignore_not_found (some ApiError.not_found) = none
ignore_not_found e = e

-- The replicas that the autoscaler has chosen are kept, where it is asked for.
abbrev pub with_replicas : Bool → Option ℕ → Deployment → Deployment
with_replicas preserve n dep = if preserve then record dep { replicas = n } else dep

module _ (s : Server) where
  -- `client.IgnoreNotFound(r.Delete(…))`
  unfoldable pub remove : WorkloadKind → Text → M Retriever (Option ApiError)
  remove kind name = do err ← call s (delete_workload kind name); pure (ignore_not_found err)

  -- Create the object where it is missing, and update it where it is there.
  unfoldable pub create_or_update : Workload → Option ApiError → M Retriever (Option ApiError)
  create_or_update object none = call s (update_workload object)
  create_or_update object (some e) =
      if is_not_found e then call s (create_workload object) else pure (some e)

  unfoldable pub apply_object : WorkloadKind → Text → Workload → M Retriever (Option ApiError)
  apply_object kind name object = do
    err ← call s (read_workload kind name)
    create_or_update object err

  -- SetControllerReference, and then the object.
  unfoldable pub apply_owned : WorkloadKind → Text → Workload → M Retriever (Option ApiError)
  apply_owned kind name object =
      call s (set_controller_reference name) before apply_object kind name object

  unfoldable pub fetch_replicas : Live → Text → M Retriever (Got (Option ℕ))
  fetch_replicas live name w = (
    answer s (s.ack w.log (read_workload deployments name)) (live.replicas w.log name),
    record w { log = read_workload deployments name ∷ w.log },
  )

  unfoldable pub put_deployment : Deployment → Bool → Got (Option ℕ) → M Retriever (Option ApiError)
  put_deployment dep preserve (found n) =
      call s (update_workload (deployment (with_replicas preserve n dep)))
  put_deployment dep preserve (refused e) =
      if is_not_found e then call s (create_workload (deployment dep)) else pure (some e)

  unfoldable pub apply_deployment : Live → Deployment → Bool → M Retriever (Option ApiError)
  apply_deployment live dep preserve = do
    got ← fetch_replicas live dep.name
    put_deployment dep preserve got

  unfoldable pub apply_service : Service → M Retriever (Option ApiError)
  apply_service svc = apply_object services svc.name (service svc)

  -- The shape of the four functions below: the object is deleted where it is not wanted.
  unfoldable pub settle : WorkloadKind → Text → Option Workload → M Retriever (Option ApiError)
  settle kind name none = remove kind name
  settle kind name (some object) = apply_owned kind name object

  unfoldable pub reconcile_ingress : Retriever → M Retriever (Option ApiError)
  reconcile_ingress rt = settle ingresses (workload_name rt) (wanted_ingress rt)

  unfoldable pub reconcile_oidc_network_policy : Retriever → M Retriever (Option ApiError)
  reconcile_oidc_network_policy rt = settle network_policies (policy_name rt) (wanted_policy rt)

  unfoldable pub reconcile_budget : Retriever → M Retriever (Option ApiError)
  reconcile_budget rt = settle pod_disruption_budgets (workload_name rt) (wanted_budget rt)

  unfoldable pub reconcile_autoscaler : Retriever → M Retriever (Option ApiError)
  reconcile_autoscaler rt = settle autoscalers (workload_name rt) (wanted_autoscaler rt)

  -- The objects of a Retriever, in the order of the pass.
  unfoldable pub apply_objects : Live → Retriever → Deployment → M Retriever (Option ApiError)
  apply_objects live rt dep =
      let svc = desired_service rt in
      let metrics = desired_metrics_service rt in
      call s (set_controller_reference dep.name)
      before (apply_deployment live dep (autoscaling_enabled rt)
          before (call s (set_controller_reference svc.name)
              before (apply_service svc
                  before (call s (set_controller_reference metrics.name)
                      before (apply_service metrics
                          before (reconcile_ingress rt
                              before (reconcile_oidc_network_policy rt
                                  before (reconcile_budget rt before reconcile_autoscaler rt))))))))

  -- The Services stay.
  unfoldable pub remove_retriever_workload : Retriever → M Retriever (Option ApiError)
  remove_retriever_workload rt =
      let name = workload_name rt in
      remove deployments name
      before (remove autoscalers name
          before (remove pod_disruption_budgets name
              before (remove ingresses name before remove network_policies (policy_name rt))))
