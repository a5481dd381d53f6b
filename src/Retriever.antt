-- ===== src/Retriever.antt =====
-- internal/controller/retriever_controller.go: what a Retriever asks for, with the defaults of the
-- code. The children model the secrets, the objects that are rendered, and the pass.
pub mod Secrets
pub mod Environment
pub mod Deployment
pub mod Objects
pub mod Apply
pub mod Pass
pub mod Watches
pub mod Tests
use kuberag.Prelude.{
  if◌then◌else◌, is_empty, Text, codes, ℕ, Bool, true, false, Option, none, some, [], ◌∷◌, ◌++◌,
}
use kuberag.Api.Pods.{StringMap}
use kuberag.Api.Retriever.{Retriever, AutoscalingSpec}
use kuberag.Pods.{default_int}

pub retriever_image : Retriever → Text
retriever_image rt =
    if is_empty rt.spec.image
    then codes "ghcr.io/furkandogmus/kuberag-retriever:latest"
    else rt.spec.image

-- boolPtrVal and intPtrVal: the value of a pointer, or its default.
abbrev pub value_or {ℓ} : {A : Type ℓ} → Option A → A → A
value_or none def = def
value_or (some v) def = v

unfoldable pub autoscaler_enabled : Option AutoscalingSpec → Bool
autoscaler_enabled none = false
autoscaler_enabled (some a) = value_or a.enabled false

unfoldable pub autoscaling_enabled : Retriever → Bool
unfolding autoscaler_enabled
autoscaling_enabled rt = autoscaler_enabled rt.spec.autoscaling

abbrev pub is_some {ℓ} : {A : Type ℓ} → Option A → Bool
is_some none = false
is_some (some a) = true

abbrev pub oidc_enabled : Retriever → Bool
oidc_enabled rt = is_some rt.spec.oidc

-- The lower bound of the autoscaler, where one is enabled, and the replicas of the spec otherwise.
unfoldable pub minimum_of : ℕ → Option AutoscalingSpec → ℕ
minimum_of replicas none = replicas
minimum_of replicas (some a) =
    if value_or a.enabled false then default_int a.min_replicas 2 else replicas

unfoldable pub desired_minimum_replicas : Retriever → ℕ
unfolding minimum_of
desired_minimum_replicas rt = minimum_of rt.spec.replicas rt.spec.autoscaling

unfoldable pub pod_labels : Retriever → StringMap
pod_labels rt =
    (codes "app.kubernetes.io/managed-by", codes "kuberag")
    ∷ (codes "rag.furkan.dev/retriever", rt.name)
    ∷ []

unfoldable pub workload_name : Retriever → Text
workload_name rt = rt.name ++ codes "-retriever"
