-- ===== src/Pods.antt =====
-- The parts of a pod that internal/controller/jobs.go gives to the worker Jobs and to the Retriever.
use kuberag.Prelude.{
  ◌==◌, if◌then◌else◌, is_empty, Text, codes, ℕ, Bool, true, false, ◌&&◌, ◌||◌, Option, none, some,
  List, [], ◌∷◌,
}
use kuberag.Platform.{Platform}
use kuberag.Api.KnowledgeBase.{KnowledgeBase, ResourceRequirements}
use kuberag.Api.Jobs.{EnvVar, value, WorkerPod}
use kuberag.Api.Pods.{
  PodResources, PodSecurityContext, SecurityContext, Volume, VolumeMount, empty_dir, config_map,
}

unfoldable pub default_int : ℕ → ℕ → ℕ
default_int v def = if v == 0 then def else v

abbrev pub plain : Text → Text → EnvVar
plain name text = record { name = name; value = value text }

abbrev pub non_root_uid : ℕ
non_root_uid = 65532

pub hardened_pod_security_context : PodSecurityContext
hardened_pod_security_context = record {
  run_as_non_root = true;
  run_as_user = non_root_uid;
  run_as_group = non_root_uid;
  fs_group = non_root_uid;
  runtime_default_seccomp = true;
}

pub hardened_container_security_context : SecurityContext
hardened_container_security_context = record {
  run_as_non_root = true;
  allow_privilege_escalation = false;
  read_only_root_filesystem = true;
  dropped_capabilities = codes "ALL" ∷ [];
  runtime_default_seccomp = true;
}

-- `none` stands for the panic of `resource.MustParse` on a quantity that it does not accept.
unfoldable pub scratch_volume : Platform → Text → Option Volume
scratch_volume p limit =
    if is_empty limit
    then some (record { name = codes "scratch"; source = empty_dir none })
    else if p.quantity_ok limit
    then some (record { name = codes "scratch"; source = empty_dir (some limit) })
    else none

pub scratch_mount : VolumeMount
scratch_mount = record { name = codes "scratch"; mount_path = codes "/scratch"; read_only = false }

unfoldable pub scratch_env : List EnvVar
scratch_env =
    plain (codes "HOME") (codes "/scratch")
    ∷ plain (codes "TMPDIR") (codes "/scratch")
    ∷ plain (codes "XDG_CACHE_HOME") (codes "/scratch/.cache")
    ∷ plain (codes "HF_HOME") (codes "/scratch/.cache/huggingface")
    ∷ plain (codes "FASTEMBED_CACHE_PATH") (codes "/scratch/.cache/fastembed")
    ∷ plain (codes "PYTHONDONTWRITEBYTECODE") (codes "1")
    ∷ []

pub spec_volume : Text → Volume
spec_volume name = record { name = codes "spec"; source = config_map name }

pub spec_mount : VolumeMount
spec_mount = record { name = codes "spec"; mount_path = codes "/etc/kuberag"; read_only = true }

-- `value != ""` and a parser that refuses it.
unfoldable pub quantity_given_ok : Platform → Text → Bool
quantity_given_ok p q = is_empty q || p.quantity_ok q

abbrev quantity : Text → Text → Text
quantity given def = if is_empty given then def else given

pod_resources : Text → Text → PodResources
pod_resources cpu memory = record {
  requests =
      (codes "cpu", quantity cpu (codes "250m"))
      ∷ (codes "memory", quantity memory (codes "1Gi"))
      ∷ [];
  limits =
      (codes "cpu", quantity cpu (codes "2"))
      ∷ (codes "memory", quantity memory (codes "4Gi"))
      ∷ [];
}

-- `none` stands for the error of a quantity.
unfoldable pub resource_requirements : Platform → Option ResourceRequirements → Option PodResources
unfolding pod_resources
resource_requirements p none = some (pod_resources [] [])
resource_requirements p (some r) =
    if quantity_given_ok p r.cpu && quantity_given_ok p r.memory
    then some (pod_resources r.cpu r.memory)
    else none

unfoldable pub pod_of : Text → List Text → Option PodResources → Option Volume → Option WorkerPod
pod_of spec_map args (some resources) (some scratch) = some (record {
  priority_class_name = codes "kuberag-system";
  termination_grace_period_seconds = 120;
  security_context = hardened_pod_security_context;
  volumes = scratch ∷ spec_volume spec_map ∷ [];
  args = args;
  resources = resources;
  container_security_context = hardened_container_security_context;
  volume_mounts = scratch_mount ∷ spec_mount ∷ [];
})
pod_of spec_map args _ _ = none

-- The pod of a worker, on the ConfigMap with its spec.
unfoldable pub worker_pod : Platform → KnowledgeBase → Text → List Text → Option WorkerPod
worker_pod p kb spec_map args =
    pod_of spec_map args (resource_requirements p kb.spec.ingestion.resources)
      (scratch_volume p kb.spec.ingestion.model_cache_size_limit)
