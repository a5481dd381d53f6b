-- ===== src/Api/Pods.antt =====
-- The parts of a pod that the worker Jobs and the Retriever's Deployment share. A Go map of strings is
-- a list of pairs.
use kuberag.Prelude.{Text, ℕ, Bool, Option, List}

abbrev pub StringMap : Type 0
StringMap = List (Text × Text)

-- Requests and limits by the name of a resource, each with its quantity.
pub record PodResources : Type 0 where
  pub requests : StringMap
  pub limits : StringMap

-- An HTTP GET on a port.
pub record Probe : Type 0 where
  pub path : Text
  pub port : ℕ
  pub initial_delay_seconds : ℕ
  pub period_seconds : ℕ
  pub failure_threshold : ℕ

pub record PodSecurityContext : Type 0 where
  pub run_as_non_root : Bool
  pub run_as_user : ℕ
  pub run_as_group : ℕ
  pub fs_group : ℕ
  pub runtime_default_seccomp : Bool

pub record SecurityContext : Type 0 where
  pub run_as_non_root : Bool
  pub allow_privilege_escalation : Bool
  pub read_only_root_filesystem : Bool
  pub dropped_capabilities : List Text
  pub runtime_default_seccomp : Bool

pub data VolumeSource : Type 0 where
  -- With its size limit.
  empty_dir : Option Text → VolumeSource
  config_map : Text → VolumeSource

pub record Volume : Type 0 where
  pub name : Text
  pub source : VolumeSource

pub record VolumeMount : Type 0 where
  pub name : Text
  pub mount_path : Text
  pub read_only : Bool
