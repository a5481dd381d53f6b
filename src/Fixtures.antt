-- ===== src/Fixtures.antt =====
-- Concrete objects, a platform and a server for the tests.
pub mod Objects
use kuberag.Prelude.{codes, ◌+◌, ◌*◌, true, false, Option, none, some, List, [], ◌∷◌}
use kuberag.Platform.{Platform}
use kuberag.Api.KnowledgeBase.{KnowledgeBase, Time, IngestMode, Condition, ConditionType}
use kuberag.Api.Jobs.{Job, WorkerPod, ingest, job_complete, IngestResult, EvalResult}
use kuberag.Api.Runs.{IngestionRun, RunPhase}
use kuberag.Api.Snapshots.{Backup, completed, BackupResult}
use kuberag.Cluster.{Server, Pass, second}
pub use Objects.{repeat, chunking, github_token, quality, vector_store, kb}

abbrev pub worker : WorkerPod
worker = record {
  priority_class_name = codes "kuberag-system";
  termination_grace_period_seconds = 120;
  security_context = record {
    run_as_non_root = true;
    run_as_user = 65532;
    run_as_group = 65532;
    fs_group = 65532;
    runtime_default_seccomp = true;
  };
  volumes = [];
  args = codes "ingest" ∷ [];
  resources = record { requests = []; limits = [] };
  container_security_context = record {
    run_as_non_root = true;
    allow_privilege_escalation = false;
    read_only_root_filesystem = true;
    dropped_capabilities = codes "ALL" ∷ [];
    runtime_default_seccomp = true;
  };
  volume_mounts = [];
}

abbrev pub job : Job
job = record {
  name = codes "docs-ingest-r1";
  namespace = codes "rag";
  labels = record {
    knowledge_base = codes "docs";
    job_type = ingest;
    spec_hash = codes "aaaa";
    secrets_hash = codes "bbbb";
    chunking = codes "recursive.800.80";
  };
  backoff_limit = 2;
  ttl_seconds = 300;
  active_deadline_seconds = some 7200;
  service_account = codes "docs-worker";
  pod = worker;
  image = codes "worker";
  env = [];
  conditions = record { type = job_complete; status = true } ∷ [];
}

abbrev pub run : RunPhase → Time → IngestionRun
run phase created = record {
  name = codes "run";
  knowledge_base = codes "docs";
  creation_timestamp = created;
  mode = IngestMode.full;
  spec_hash = codes "aaaa";
  effective_chunking = chunking;
  status = record {
    phase = phase;
    start_time = none;
    completion_time = none;
    total_chunks = 0;
    sources = [];
    error = [];
  };
}

abbrev pub backup : Backup
backup = record {
  name = codes "nightly";
  namespace = codes "rag";
  deleting = false;
  has_finalizer = true;
  spec = record {
    knowledge_base_ref = codes "docs";
    s3 = record {
      endpoint = codes "https://s3";
      region = codes "eu";
      bucket = codes "b";
      prefix = [];
      access_key_secret_ref = record { name = codes "s3"; key = codes "id" };
      secret_key_secret_ref = record { name = codes "s3"; key = codes "secret" };
    };
    suspend = false;
  };
  status = record {
    phase = completed;
    active_job = [];
    completion_time = none;
    backup_id = codes "1";
    location = codes "s3://b/1";
    total_points = 12;
    size_bytes = 4096;
    conditions = [];
  };
}

abbrev pub ingest_result : IngestResult
ingest_result = record {
  total_chunks = 12;
  sources = record { name = codes "docs"; revision = codes "r2"; chunks = 12 } ∷ [];
}

-- A recall below the target of `quality`.
abbrev pub eval_result : EvalResult
eval_result = record { recall_percent = 70; p95_latency_millis = 30; queries = 20 }

abbrev pub backup_result : BackupResult
backup_result = record { total_points = 12; size_bytes = 4096; location = codes "s3://b/2" }

abbrev pub hourly : Time → Time
hourly t = t + 3600 * second

abbrev pub first_condition : List Condition → ConditionType → Option Condition
first_condition [] type = none
first_condition (c ∷ cs) type = some c

abbrev pub platform : Platform
platform = record {
  sha256_hex = λ t. repeat 64 b'0';
  cron_parse = λ t. some hourly;
  json_corpus = λ a b c d. codes "corpus";
  json_spec = λ s. some (codes "{}");
  json_query = λ e v. some (codes "{}");
  json_store = λ v. some (codes "{}");
  json_sources = λ l. codes "[]";
  ingest_result = λ t. some ingest_result;
  eval_result = λ t. some eval_result;
  checkpoint = λ t. some [];
  backup_result = λ t. some backup_result;
  restore_result = λ t. some 12;
  quantity_ok = λ t. true;
  set_status_condition = λ cs c. c ∷ cs;
  find_status_condition = first_condition;
  trace_env = [];
}

-- A server that takes every call.
abbrev pub server : Server
server = record {
  ack = λ h c. none;
  job = λ h name. job;
  config_map = λ h name key. some (codes "{}");
  secret = λ h name key. some (codes "s3cret");
  run = λ h name. run RunPhase.running 1;
  runs = λ h. [];
  role = λ h name. [];
  knowledge_base = λ h name. kb;
  backup = λ h name. backup;
  now = λ h. 100 * second;
  retry_steps = 4;
}

abbrev pub pass : Pass KnowledgeBase
pass = record { object = kb; log = [] }
