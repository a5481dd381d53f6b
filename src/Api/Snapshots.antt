-- ===== src/Api/Snapshots.antt =====
-- api/v1alpha1/backup_types.go and restore_types.go, and the results of their workers in
-- internal/controller/backup_jobs.go. The CRD requires the destination's S3 block.
use kuberag.Prelude.{Text, ℕ, Bool, Option, List}
use kuberag.Api.KnowledgeBase.{Time, SecretKeyRef, Condition}

-- BackupPhase and RestorePhase have the same values.
pub data SnapshotPhase : Type 0 where
  unset pending running completed failed : SnapshotPhase

pub record S3BackupTarget : Type 0 where
  pub endpoint : Text
  pub region : Text
  pub bucket : Text
  pub prefix : Text
  pub access_key_secret_ref : SecretKeyRef
  pub secret_key_secret_ref : SecretKeyRef

pub record BackupSpec : Type 0 where
  pub knowledge_base_ref : Text
  pub s3 : S3BackupTarget
  pub suspend : Bool

pub record BackupStatus : Type 0 where
  pub phase : SnapshotPhase
  pub active_job : Text
  pub completion_time : Option Time
  pub backup_id : Text
  pub location : Text
  pub total_points : ℕ
  pub size_bytes : ℕ
  pub conditions : List Condition

pub record Backup : Type 0 where
  pub name : Text
  pub namespace : Text
  pub deleting : Bool
  pub has_finalizer : Bool
  pub spec : BackupSpec
  pub status : BackupStatus

pub record BackupResult : Type 0 where
  pub total_points : ℕ
  pub size_bytes : ℕ
  pub location : Text

pub record RestoreSpec : Type 0 where
  pub backup_ref : Text
  pub knowledge_base_ref : Text
  pub suspend : Bool

pub record RestoreStatus : Type 0 where
  pub phase : SnapshotPhase
  pub active_job : Text
  pub completion_time : Option Time
  pub restored_points : ℕ
  pub conditions : List Condition

pub record Restore : Type 0 where
  pub name : Text
  pub namespace : Text
  pub deleting : Bool
  pub has_finalizer : Bool
  pub spec : RestoreSpec
  pub status : RestoreStatus
