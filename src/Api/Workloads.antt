-- ===== src/Api/Workloads.antt =====
-- The Kubernetes objects that the Retriever controller renders, as far as it sets them: Deployment,
-- Service, Ingress, NetworkPolicy, PodDisruptionBudget and HorizontalPodAutoscaler.
use kuberag.Prelude.{Text, ℕ, Bool, Option, List}
use kuberag.Api.Jobs.{EnvVar}
use kuberag.Api.Pods.{
  PodResources, StringMap, Probe, PodSecurityContext, SecurityContext, Volume, VolumeMount,
}

pub record ContainerPort : Type 0 where
  pub name : Text
  pub container_port : ℕ

pub record Container : Type 0 where
  pub name : Text
  pub image : Text
  pub args : List Text
  pub ports : List ContainerPort
  pub env : List EnvVar
  pub resources : PodResources
  pub security_context : SecurityContext
  pub volume_mounts : List VolumeMount
  pub readiness_probe : Option Probe
  pub liveness_probe : Option Probe
  pub startup_probe : Option Probe

-- The pods are spread over zones by the labels, as far as the scheduler can.
pub record Deployment : Type 0 where
  pub name : Text
  pub namespace : Text
  pub labels : StringMap
  pub replicas : Option ℕ
  pub selector : StringMap
  pub annotations : StringMap
  pub automount_service_account_token : Bool
  pub priority_class_name : Text
  pub termination_grace_period_seconds : ℕ
  pub security_context : PodSecurityContext
  pub volumes : List Volume
  pub node_selector : StringMap
  pub spread_by : StringMap
  pub containers : List Container

pub record ServicePort : Type 0 where
  pub name : Text
  pub port : ℕ
  pub target_port : ℕ

pub record Service : Type 0 where
  pub name : Text
  pub namespace : Text
  pub labels : StringMap
  pub annotations : StringMap
  pub selector : StringMap
  pub ports : List ServicePort

-- One rule with one path, of the type Prefix, to a port of a Service; TLS for the host.
pub record Ingress : Type 0 where
  pub name : Text
  pub namespace : Text
  pub labels : StringMap
  pub annotations : StringMap
  pub class_name : Option Text
  pub host : Text
  pub path : Text
  pub backend : Text
  pub backend_port : ℕ
  pub tls_secret : Option Text

-- Of the policy type Ingress: TCP to the ports listed, from anywhere, and nothing else.
pub record NetworkPolicy : Type 0 where
  pub name : Text
  pub namespace : Text
  pub labels : StringMap
  pub pod_selector : StringMap
  pub ingress_ports : List ℕ

pub record PodDisruptionBudget : Type 0 where
  pub name : Text
  pub namespace : Text
  pub labels : StringMap
  pub min_available : ℕ
  pub selector : StringMap

-- On the utilization of the CPU.
pub record HorizontalPodAutoscaler : Type 0 where
  pub name : Text
  pub namespace : Text
  pub labels : StringMap
  pub scale_target : Text
  pub min_replicas : ℕ
  pub max_replicas : ℕ
  pub target_cpu : ℕ

pub data Workload : Type 0 where
  deployment : Deployment → Workload
  service : Service → Workload
  ingress : Ingress → Workload
  network_policy : NetworkPolicy → Workload
  pod_disruption_budget : PodDisruptionBudget → Workload
  autoscaler : HorizontalPodAutoscaler → Workload

pub data WorkloadKind : Type 0 where
  deployments services ingresses network_policies pod_disruption_budgets autoscalers : WorkloadKind
