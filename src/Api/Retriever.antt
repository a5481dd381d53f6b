-- ===== src/Api/Retriever.antt =====
-- api/v1alpha1/retriever_types.go. Tolerations and affinity are left out.
use kuberag.Prelude.{Text, ℕ, Bool, Option, List}
use kuberag.Api.Pods.{PodResources, StringMap}
use kuberag.Api.KnowledgeBase.{SecretKeyRef, Condition}

pub record RerankSpec : Type 0 where
  pub enabled : Option Bool
  pub model : Text
  pub candidate_pool_size : ℕ

pub record RateLimitSpec : Type 0 where
  pub enabled : Option Bool
  pub requests_per_minute : ℕ
  pub burst : ℕ
  pub backend : Text
  pub redis_url_secret_ref : Option SecretKeyRef
  pub redis_key_prefix : Text
  pub client_identity_header : Text

pub record AutoscalingSpec : Type 0 where
  pub enabled : Option Bool
  pub min_replicas : ℕ
  pub max_replicas : ℕ
  pub target_cpu_utilization_percentage : ℕ

pub record RetrieverIngressSpec : Type 0 where
  pub host : Text
  pub class_name : Text
  pub path : Text
  pub annotations : StringMap
  pub tls_secret_name : Text
  pub cluster_issuer : Text

pub record OidcSpec : Type 0 where
  pub issuer_url : Text
  pub client_id_secret_ref : SecretKeyRef
  pub client_secret_secret_ref : SecretKeyRef
  pub cookie_secret_ref : SecretKeyRef
  pub email_domains : List Text
  pub groups : List Text
  pub image : Text

pub record GenerationSpec : Type 0 where
  pub enabled : Option Bool
  pub provider : Text
  pub model : Text
  pub base_url : Text
  pub api_key_secret_ref : Option SecretKeyRef
  pub max_tokens : ℕ
  pub system_prompt : Text

pub record RetrieverSpec : Type 0 where
  pub knowledge_base_ref : Text
  pub api_key_secret_ref : Option SecretKeyRef
  pub rate_limit : Option RateLimitSpec
  pub max_concurrent_requests : ℕ
  pub max_request_body_bytes : ℕ
  pub pod_disruption_budget : Option Bool
  pub autoscaling : Option AutoscalingSpec
  pub ingress : Option RetrieverIngressSpec
  pub oidc : Option OidcSpec
  pub generation : Option GenerationSpec
  pub top_k : ℕ
  pub hybrid : Bool
  pub hybrid_dense_percent : Option ℕ
  pub score_threshold_percent : ℕ
  pub rerank : Option RerankSpec
  pub replicas : ℕ
  pub image : Text
  pub resources : Option PodResources
  pub node_selector : StringMap

pub data RetrieverPhase : Type 0 where
  unset pending available progressing : RetrieverPhase

pub record RetrieverStatus : Type 0 where
  pub phase : RetrieverPhase
  pub observed_generation : ℕ
  pub service_endpoint : Text
  pub public_endpoint : Text
  pub ready_replicas : ℕ
  pub conditions : List Condition

pub record Retriever : Type 0 where
  pub name : Text
  pub namespace : Text
  pub generation : ℕ
  pub spec : RetrieverSpec
  pub status : RetrieverStatus
