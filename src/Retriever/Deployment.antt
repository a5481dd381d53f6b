-- ===== src/Retriever/Deployment.antt =====
-- desiredDeployment: the server, the proxy in front of it, and their pod. Tolerations and affinity,
-- which are copied from the spec, are left out, and so are the image pull policies, which are all
-- IfNotPresent.
pub mod Mounted
pub mod Known
use kuberag.Prelude.{
  if◌then◌else◌, is_empty, Text, codes, ℕ, Bool, false, not, Option, none, some, List, [], ◌∷◌,
  ◌++◌,
}
use kuberag.Platform.{Platform}
use kuberag.Api.KnowledgeBase.{KnowledgeBase}
use kuberag.Api.Pods.{PodResources, Probe, Volume}
use kuberag.Api.Retriever.{Retriever, OidcSpec, RetrieverIngressSpec}
use kuberag.Api.Workloads.{Deployment, Container}
use kuberag.Pods.{
  hardened_pod_security_context, hardened_container_security_context, scratch_volume, scratch_mount,
}
use kuberag.Jobs.{secret_env}
use kuberag.Retriever.{retriever_image, desired_minimum_replicas, pod_labels, workload_name}
use kuberag.Retriever.Environment.{retriever_env, bool_text, text_or}

retriever_resources : Option PodResources → PodResources
retriever_resources (some r) = r
retriever_resources none = record {
  requests = (codes "cpu", codes "250m") ∷ (codes "memory", codes "512Mi") ∷ [];
  limits = (codes "memory", codes "2Gi") ∷ [];
}

-- A failure threshold of 0 stands for the default of Kubernetes.
probe : Text → ℕ → ℕ → ℕ → ℕ → Probe
probe path port delay period failures = record {
  path = path;
  port = port;
  initial_delay_seconds = delay;
  period_seconds = period;
  failure_threshold = failures;
}

abbrev pub http_port : ℕ
http_port = 8000

abbrev pub proxy_port : ℕ
proxy_port = 4180

abbrev pub metrics_port : ℕ
metrics_port = 9090

unfoldable pub server_container : Retriever → KnowledgeBase → Container
unfolding retriever_resources probe
server_container rt kb = record {
  name = codes "retriever";
  image = retriever_image rt;
  args = [];
  ports =
      record { name = codes "http"; container_port = http_port }
      ∷ record { name = codes "metrics"; container_port = metrics_port }
      ∷ [];
  env = retriever_env rt kb;
  resources = retriever_resources rt.spec.resources;
  security_context = hardened_container_security_context;
  volume_mounts = scratch_mount ∷ [];
  readiness_probe = some (probe (codes "/readyz") http_port 10 10 0);
  liveness_probe = some (probe (codes "/healthz") http_port 60 30 0);
  startup_probe = some (probe (codes "/healthz") http_port 0 10 18);
}

-- Whether the Ingress serves HTTPS.
unfoldable pub has_tls : RetrieverIngressSpec → Bool
has_tls i = not (is_empty i.tls_secret_name)

abbrev pub scheme : RetrieverIngressSpec → Text
scheme i = if has_tls i then codes "https" else codes "http"

each : Text → List Text → List Text
each flag [] = []
each flag (x ∷ xs) = (flag ++ x) ∷ each flag xs

email_domains : List Text → List Text
email_domains [] = codes "*" ∷ []
email_domains (x ∷ xs) = x ∷ xs

unfoldable pub proxy_args : OidcSpec → RetrieverIngressSpec → List Text
unfolding each email_domains
proxy_args o i =
    codes "--provider=oidc"
    ∷ (codes "--oidc-issuer-url=" ++ o.issuer_url)
    ∷ codes "--http-address=0.0.0.0:4180"
    ∷ codes "--upstream=http://127.0.0.1:8000"
    ∷ (codes "--redirect-url="
        ++ (scheme i ++ (codes "://" ++ (i.host ++ codes "/oauth2/callback"))))
    ∷ codes "--reverse-proxy=true"
    ∷ codes "--skip-provider-button=true"
    ∷ codes "--code-challenge-method=S256"
    ∷ codes "--cookie-name=_kuberag_oauth2_proxy"
    ∷ codes "--cookie-samesite=lax"
    ∷ (codes "--cookie-secure=" ++ bool_text (has_tls i))
    ∷ (each (codes "--email-domain=") (email_domains o.email_domains)
        ++ each (codes "--allowed-group=") o.groups)

unfoldable pub proxy_container : OidcSpec → RetrieverIngressSpec → Container
unfolding probe
proxy_container o i = record {
  name = codes "oauth2-proxy";
  image = text_or o.image (codes "quay.io/oauth2-proxy/oauth2-proxy:v7.15.3");
  args = proxy_args o i;
  ports = record { name = codes "proxy"; container_port = proxy_port } ∷ [];
  env =
      secret_env (codes "OAUTH2_PROXY_CLIENT_ID") o.client_id_secret_ref
      ∷ secret_env (codes "OAUTH2_PROXY_CLIENT_SECRET") o.client_secret_secret_ref
      ∷ secret_env (codes "OAUTH2_PROXY_COOKIE_SECRET") o.cookie_secret_ref
      ∷ [];
  resources = record {
    requests = (codes "cpu", codes "25m") ∷ (codes "memory", codes "32Mi") ∷ [];
    limits = (codes "cpu", codes "250m") ∷ (codes "memory", codes "128Mi") ∷ [];
  };
  security_context = hardened_container_security_context;
  volume_mounts = [];
  readiness_probe = some (probe (codes "/ping") proxy_port 5 10 0);
  liveness_probe = some (probe (codes "/ping") proxy_port 15 20 0);
  startup_probe = none;
}

-- `none` stands for the panic of `rt.Spec.Ingress.Host` where OIDC is set and no Ingress is.
unfoldable pub proxy_containers :
    Option OidcSpec → Option RetrieverIngressSpec → Option (List Container)
proxy_containers none ingress = some []
proxy_containers (some o) none = none
proxy_containers (some o) (some i) = some (proxy_container o i ∷ [])

unfoldable pub render_deployment :
    Retriever → KnowledgeBase → Text → Volume → List Container → Deployment
render_deployment rt kb hash scratch proxies = record {
  name = workload_name rt;
  namespace = rt.namespace;
  labels = pod_labels rt;
  replicas = some (desired_minimum_replicas rt);
  selector = pod_labels rt;
  annotations = (codes "checksum/secrets", hash) ∷ [];
  automount_service_account_token = false;
  priority_class_name = codes "kuberag-system";
  termination_grace_period_seconds = 60;
  security_context = hardened_pod_security_context;
  volumes = scratch ∷ [];
  node_selector = rt.spec.node_selector;
  spread_by = pod_labels rt;
  containers = server_container rt kb ∷ proxies;
}

-- `none` where the code panics.
unfoldable pub rendered :
    Retriever → KnowledgeBase → Text → Option Volume → Option (List Container) → Option Deployment
rendered rt kb hash (some scratch) (some proxies) =
    some (render_deployment rt kb hash scratch proxies)
rendered rt kb hash _ _ = none

unfoldable pub desired_deployment : Platform → Retriever → KnowledgeBase → Text → Option Deployment
desired_deployment p rt kb hash =
    rendered rt kb hash (scratch_volume p []) (proxy_containers rt.spec.oidc rt.spec.ingress)
