-- ===== src/Retriever/Apply/Success.antt =====
-- The objects of a Retriever against a server that refuses nothing.
use kuberag.Prelude.{Text, ℕ, ◌≡◌, refl, Bool, Option, none, some}
use kuberag.Api.Retriever.{Retriever}
use kuberag.Api.Workloads.{
  Deployment, deployments, Service, service, services, Workload, WorkloadKind,
}
use kuberag.Cluster.{
  Server, History, Pass, M, Call, call, answer, ApiError, set_controller_reference, read_workload,
  update_workload, delete_workload,
}
use kuberag.Identity.{◌before◌}
use kuberag.Retriever.Apply.{
  Live, ignore_not_found, remove, create_or_update, apply_object, apply_owned, fetch_replicas,
  put_deployment, apply_deployment, apply_service, settle, reconcile_ingress,
  reconcile_oidc_network_policy, reconcile_budget, reconcile_autoscaler, apply_objects,
}

-- A step that reports no error, wherever it starts.
abbrev pub Succeeds : M Retriever (Option ApiError) → Type 0
Succeeds m = (w : Pass Retriever) → (m w).0 ≡ none

before-Succeeds :
    (m k : M Retriever (Option ApiError)) → Succeeds m → Succeeds k → Succeeds (m before k)
unfolding ◌before◌
before-Succeeds m k hm hk w = rw (hm w, ◌before◌) (hk (m w).1)

module _ (s : Server) (taking : (h : History) (c : Call) → s.ack h c ≡ none) where
  call-Succeeds : (c : Call) → Succeeds (call s c)
  unfolding call
  call-Succeeds c w = taking w.log c

  ignored : (e : Option ApiError) → e ≡ none → ignore_not_found e ≡ none
  unfolding ignore_not_found
  ignored none h = refl
  ignored (some e) h = cc

  remove-Succeeds : (kind : WorkloadKind) (name : Text) → Succeeds (remove s kind name)
  unfolding remove call
  remove-Succeeds kind name w = ignored _ (taking w.log (delete_workload kind name))

  create_or_update-Succeeds :
      (o : Workload) (e : Option ApiError) → e ≡ none → Succeeds (create_or_update s o e)
  unfolding create_or_update
  create_or_update-Succeeds o none h = call-Succeeds (update_workload o)
  create_or_update-Succeeds o (some e) h = λ w. cc

  apply_object-Succeeds :
      (kind : WorkloadKind) (name : Text) (o : Workload) → Succeeds (apply_object s kind name o)
  unfolding apply_object call
  apply_object-Succeeds kind name o w =
      create_or_update-Succeeds o _ (taking w.log (read_workload kind name)) _

  settle-Succeeds :
      (kind : WorkloadKind) (name : Text) (o : Option Workload) → Succeeds (settle s kind name o)
  unfolding settle apply_owned
  settle-Succeeds kind name none = remove-Succeeds kind name
  settle-Succeeds kind name (some o) =
      before-Succeeds _ _ (call-Succeeds (set_controller_reference name))
        (apply_object-Succeeds kind name o)

  put_deployment-Succeeds :
      (dep : Deployment) (preserve : Bool) (e : Option ApiError) (n : Option ℕ)
      → e ≡ none
      → Succeeds (put_deployment s dep preserve (answer s e n))
  unfolding put_deployment
  put_deployment-Succeeds dep preserve none n h = call-Succeeds _
  put_deployment-Succeeds dep preserve (some e) n h = λ w. cc

  apply_deployment-Succeeds :
      (live : Live) (dep : Deployment) (preserve : Bool)
      → Succeeds (apply_deployment s live dep preserve)
  unfolding apply_deployment fetch_replicas
  apply_deployment-Succeeds live dep preserve w =
      put_deployment-Succeeds dep preserve _ _ (taking w.log (read_workload deployments dep.name)) _

  service-Succeeds : (svc : Service) → Succeeds (apply_service s svc)
  unfolding apply_service
  service-Succeeds svc = apply_object-Succeeds services svc.name (service svc)

  pub apply_objects-Succeeds :
      (live : Live) (rt : Retriever) (dep : Deployment) → Succeeds (apply_objects s live rt dep)
  unfolding apply_objects reconcile_ingress reconcile_oidc_network_policy reconcile_budget
      reconcile_autoscaler
  apply_objects-Succeeds live rt dep = owned dep.name _ (
      before-Succeeds _ _ (apply_deployment-Succeeds live dep _) (
        owned _ _ (
          before-Succeeds _ _ (service-Succeeds _) (
            owned _ _ (
              before-Succeeds _ _ (service-Succeeds _)
                (settled _ _ _ _ (settled _ _ _ _ (settled _ _ _ _ (settle-Succeeds _ _ _)))))))))
    where
      owned :
          (name : Text) (k : M Retriever (Option ApiError))
          → Succeeds k
          → Succeeds (call s (set_controller_reference name) before k)
      owned name k = before-Succeeds _ _ (call-Succeeds (set_controller_reference name))

      settled :
          (kind : WorkloadKind) (name : Text) (o : Option Workload)
          (k : M Retriever (Option ApiError))
          → Succeeds k
          → Succeeds (settle s kind name o before k)
      settled kind name o k = before-Succeeds _ _ (settle-Succeeds kind name o)
