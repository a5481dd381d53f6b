-- ===== src/Retriever/Objects.antt =====
-- The Services, the Ingress, the NetworkPolicy, the PodDisruptionBudget and the autoscaler of a
-- Retriever, as far as retriever_controller.go renders them.
use kuberag.Prelude.{
  put, ltb, if◌then◌else◌, is_empty, Text, codes, ℕ, Bool, Option, none, some, [], ◌∷◌, ◌++◌,
}
use kuberag.Api.Retriever.{Retriever, RetrieverIngressSpec, AutoscalingSpec}
use kuberag.Api.Workloads.{
  Service, Ingress, NetworkPolicy, PodDisruptionBudget, HorizontalPodAutoscaler,
}
use kuberag.Pods.{default_int}
use kuberag.Retriever.{value_or, oidc_enabled, desired_minimum_replicas, pod_labels, workload_name}
use kuberag.Retriever.Environment.{text_or}
use kuberag.Retriever.Deployment.{http_port, proxy_port, metrics_port}

unfoldable pub target_port : Retriever → ℕ
target_port rt = if oidc_enabled rt then proxy_port else http_port

unfoldable pub desired_service : Retriever → Service
desired_service rt = record {
  name = workload_name rt;
  namespace = rt.namespace;
  labels = pod_labels rt;
  annotations = [];
  selector = pod_labels rt;
  ports = record { name = codes "http"; port = http_port; target_port = target_port rt } ∷ [];
}

abbrev pub metrics_service_name : Retriever → Text
metrics_service_name rt = rt.name ++ codes "-retriever-metrics"

unfoldable pub desired_metrics_service : Retriever → Service
desired_metrics_service rt = record {
  name = metrics_service_name rt;
  namespace = rt.namespace;
  labels =
      (codes "app.kubernetes.io/managed-by", codes "kuberag")
      ∷ (codes "app.kubernetes.io/component", codes "retriever-metrics")
      ∷ (codes "rag.furkan.dev/retriever", rt.name)
      ∷ [];
  annotations =
      (codes "prometheus.io/scrape", codes "true")
      ∷ (codes "prometheus.io/port", codes "9090")
      ∷ (codes "prometheus.io/path", codes "/metrics")
      ∷ [];
  selector = pod_labels rt;
  ports = record { name = codes "metrics"; port = metrics_port; target_port = metrics_port } ∷ [];
}

unfoldable pub ingress_path : RetrieverIngressSpec → Text
ingress_path i = text_or i.path (codes "/")

-- The value where it is not "".
abbrev pub non_empty : Text → Option Text
non_empty t = if is_empty t then none else some t

unfoldable pub desired_ingress : Retriever → RetrieverIngressSpec → Ingress
desired_ingress rt i = record {
  name = workload_name rt;
  namespace = rt.namespace;
  labels = pod_labels rt;
  annotations =
      if is_empty i.cluster_issuer
      then i.annotations
      else put (codes "cert-manager.io/cluster-issuer") i.cluster_issuer i.annotations;
  class_name = non_empty i.class_name;
  host = i.host;
  path = ingress_path i;
  backend = workload_name rt;
  backend_port = http_port;
  tls_secret = non_empty i.tls_secret_name;
}

abbrev pub policy_name : Retriever → Text
policy_name rt = rt.name ++ codes "-retriever-oidc"

unfoldable pub desired_policy : Retriever → NetworkPolicy
desired_policy rt = record {
  name = policy_name rt;
  namespace = rt.namespace;
  labels = pod_labels rt;
  pod_selector = pod_labels rt;
  ingress_ports = proxy_port ∷ metrics_port ∷ [];
}

-- Whether the spec, or where it says nothing the number of replicas, asks for a budget.
unfoldable pub budget_enabled : Retriever → Bool
budget_enabled rt = value_or rt.spec.pod_disruption_budget (ltb 1 (desired_minimum_replicas rt))

unfoldable pub desired_budget : Retriever → PodDisruptionBudget
desired_budget rt = record {
  name = workload_name rt;
  namespace = rt.namespace;
  labels = pod_labels rt;
  min_available = 1;
  selector = pod_labels rt;
}

unfoldable pub desired_autoscaler : Retriever → AutoscalingSpec → HorizontalPodAutoscaler
desired_autoscaler rt a = record {
  name = workload_name rt;
  namespace = rt.namespace;
  labels = pod_labels rt;
  scale_target = workload_name rt;
  min_replicas = default_int a.min_replicas 2;
  max_replicas = default_int a.max_replicas 10;
  target_cpu = default_int a.target_cpu_utilization_percentage 70;
}
