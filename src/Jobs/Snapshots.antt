-- ===== src/Jobs/Snapshots.antt =====
-- buildBackupJob and buildRestoreJob of internal/controller/backup_jobs.go, with the limits of
-- jobs.go.
use kuberag.Prelude.{
  if◌then◌else◌, is_empty, Text, codes, ℕ, ◌-◌, ◌*◌, ◌/◌, Option, none, some, List, [], ◌∷◌, ◌++◌,
}
use kuberag.Platform.{Platform}
use kuberag.Api.KnowledgeBase.{KnowledgeBase, Time, SecretKeyRef}
use kuberag.Api.Jobs.{Job, JobType, EnvVar, backup, restore}
use kuberag.Api.Snapshots.{Backup, Restore}
use kuberag.Names.{trunc_name, spec_config_map_name, result_config_map_name}
use kuberag.Labels.{sprintf_d}
use kuberag.Identity.{worker_service_account_name}
use kuberag.Pods.{plain, scratch_env, worker_pod}
use kuberag.Jobs.{
  secret_env, trace_env, credential_env, worker_image, marshal_store_spec, marshal_query_spec,
}

-- A variable for a reference whose Secret has a name.
named_env : Text → SecretKeyRef → List EnvVar
named_env name ref = if is_empty ref.name then [] else secret_env name ref ∷ []

-- The Job that both builders render.
snapshot_job :
    Platform → KnowledgeBase → Text → Text → JobType → List Text → List EnvVar → Option Job
snapshot_job p kb name namespace type args extra =
    elim (worker_pod p kb (spec_config_map_name p name) args) [
      | none ↦ none
      | some pod ↦ some (record {
        name = name;
        namespace = namespace;
        labels = record {
          knowledge_base = kb.name;
          job_type = type;
          spec_hash = [];
          secrets_hash = [];
          chunking = [];
        };
        backoff_limit = 1;
        ttl_seconds = 600;
        active_deadline_seconds = some 3600;
        service_account = worker_service_account_name p kb;
        pod = pod;
        image = worker_image kb;
        env =
            plain (codes "KB_NAME") kb.name
            ∷ plain (codes "KB_NAMESPACE") kb.namespace
            ∷ plain (codes "KB_SPEC_PATH") (codes "/etc/kuberag/spec.json")
            ∷ plain (codes "RESULT_CONFIGMAP") (result_config_map_name p name)
            ∷ (scratch_env ++ (extra ++ (trace_env p.trace_env ++ credential_env kb)));
        conditions = [];
      })
    ]

-- The spec beside its Job.
with_spec : Option Text → Option Job → Option (Job × Text)
with_spec (some spec) (some job) = some (job, spec)
with_spec _ _ = none

-- `time.Now().UnixNano()`, for a clock that is past 1970.
unfoldable pub unix_nano : Time → ℕ
unix_nano now = now - 62135596800 * 1000000000

unfoldable pub build_backup_job : Platform → KnowledgeBase → Backup → Text → Option (Job × Text)
unfolding named_env snapshot_job with_spec
build_backup_job p kb bkp backup_id =
    let s3 = bkp.spec.s3 in
    let name = trunc_name p (bkp.name ++ (codes "-backup-" ++ backup_id)) in
    let env =
      plain (codes "BACKUP_ID") backup_id
      ∷ plain (codes "BACKUP_S3_ENDPOINT") s3.endpoint
      ∷ plain (codes "BACKUP_S3_REGION") s3.region
      ∷ plain (codes "BACKUP_S3_BUCKET") s3.bucket
      ∷ plain (codes "BACKUP_S3_PREFIX") s3.prefix
      ∷ (named_env (codes "BACKUP_S3_ACCESS_KEY") s3.access_key_secret_ref
          ++ named_env (codes "BACKUP_S3_SECRET_KEY") s3.secret_key_secret_ref) in
    with_spec (marshal_store_spec p kb)
      (snapshot_job p kb name bkp.namespace backup (codes "backup" ∷ []) env)

unfoldable pub build_restore_job :
    Platform → KnowledgeBase → Restore → Backup → Time → Option (Job × Text)
unfolding named_env snapshot_job with_spec unix_nano
build_restore_job p kb rest bkp now =
    let dst = bkp.spec.s3 in
    let name =
      trunc_name p (rest.name ++ (codes "-restore-" ++ sprintf_d (unix_nano now / 1000000000))) in
    let env =
      plain (codes "RESTORE_ROUND") (sprintf_d (unix_nano now))
      ∷ plain (codes "RESTORE_LOCATION") bkp.status.location
      ∷ plain (codes "RESTORE_S3_ENDPOINT") dst.endpoint
      ∷ plain (codes "RESTORE_S3_REGION") dst.region
      ∷ plain (codes "RESTORE_S3_BUCKET") dst.bucket
      ∷ (named_env (codes "RESTORE_S3_ACCESS_KEY") dst.access_key_secret_ref
          ++ named_env (codes "RESTORE_S3_SECRET_KEY") dst.secret_key_secret_ref) in
    with_spec (marshal_query_spec p kb)
      (snapshot_job p kb name rest.namespace restore (codes "restore" ∷ []) env)
