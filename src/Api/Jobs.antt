-- ===== src/Api/Jobs.antt =====
-- batch/v1 Job, as far as the controllers write and read it, and the results of the workers.
use kuberag.Prelude.{ℕ, Text, Option, List, Bool}
use kuberag.Api.KnowledgeBase.{SourceStatus, SecretKeyRef}
use kuberag.Api.Pods.{PodResources, PodSecurityContext, SecurityContext, Volume, VolumeMount}

pub data JobType : Type 0 where
  unset ingest eval cleanup backup restore : JobType

-- The labels that the code reads back; "" where a label is missing, as a Go map answers.
pub record Labels : Type 0 where
  pub knowledge_base : Text
  pub job_type : JobType
  pub spec_hash : Text
  pub secrets_hash : Text
  pub chunking : Text

pub data JobConditionType : Type 0 where
  job_complete job_failed job_other : JobConditionType

pub record JobCondition : Type 0 where
  pub type : JobConditionType
  pub status : Bool

pub data EnvValue : Type 0 where
  value : Text → EnvValue
  from_secret : SecretKeyRef → EnvValue

pub record EnvVar : Type 0 where
  pub name : Text
  pub value : EnvValue

-- The pod of a Job and its one container, which is never restarted.
pub record WorkerPod : Type 0 where
  pub priority_class_name : Text
  pub termination_grace_period_seconds : ℕ
  pub security_context : PodSecurityContext
  pub volumes : List Volume
  pub args : List Text
  pub resources : PodResources
  pub container_security_context : SecurityContext
  pub volume_mounts : List VolumeMount

pub record Job : Type 0 where
  pub name : Text
  pub namespace : Text
  pub labels : Labels
  pub backoff_limit : ℕ
  pub ttl_seconds : ℕ
  pub active_deadline_seconds : Option ℕ
  pub service_account : Text
  pub pod : WorkerPod
  pub image : Text
  pub env : List EnvVar
  pub conditions : List JobCondition

pub record IngestResult : Type 0 where
  pub total_chunks : ℕ
  pub sources : List SourceStatus

pub record EvalResult : Type 0 where
  pub recall_percent : ℕ
  pub p95_latency_millis : ℕ
  pub queries : ℕ
