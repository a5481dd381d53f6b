-- ===== src/Lib.antt =====
-- kuberag is a Kubernetes operator. A KnowledgeBase names sources, a chunking, an embedding and a vector
-- store; its reconciler keeps the store in line with the spec by worker Jobs (ingestion, evaluation,
-- cleanup), each of which finds its input in a ConfigMap and leaves its result in another. Backup and
-- Restore objects copy the store to object storage and back, by Jobs too. This library models the
-- operator, which is written in Go (api/v1alpha1, internal/controller and cmd).
--
-- One pass of a reconciler is a function on a `Pass`: the object in memory, and the history of the calls
-- to the API server so far. The server is a parameter (Cluster.antt, `Server`): its answer to a call is
-- any function of the history, so that a theorem about every server covers refusals, conflicts and
-- changes that other clients make between two calls. A pass threads its object as the code does, in
-- do blocks over `M`; a call whose error the code drops is an `attempt`. What the operator takes from
-- other packages (SHA-256, JSON, cron expressions, the list of conditions, resource quantities) is the
-- parameter `Platform`; a theorem that needs the length of a SHA-256 digest takes it as the hypothesis
-- `HexLength`.
--
-- The parts and their files:
--   Prelude: names shared by all modules; Go strings are lists of bytes (Prelude/Strings).
--   Api: the types of api/v1alpha1 and the fields of a Job that the code reads or writes; `unset` is "",
--     and Api/Snapshots has the types of Backup and Restore.
--   Platform, Cluster, History: the parameters, the calls, and what is said of a history.
--   Chunking, AutoTune, Decisions, Labels: internal/controller/decision_helpers.go (specChunking,
--     nextChunking, applyAutoTune, recordBest, settleOnBest, needsIngest, jobEffectiveChunking, and the
--     others), with evalDue of evaluation_controller.go in Decisions.
--   Names, Jobs: internal/controller/jobs.go (truncName, nameWithSuffix, baseJob, buildIngestJob,
--     buildEvalJob, buildCleanupJob) and vectorindex_helpers.go; Jobs/Snapshots has buildBackupJob and
--     buildRestoreJob of backup_jobs.go.
--   Schedule: internal/controller/scheduling.go. Secrets: secrets.go and computeSecretsHash.
--   Status: statusUpdate and setCondition. Identity: worker_identity.go.
--   Evaluation: evaluation_controller.go. Ingestion: ingestion_controller.go; Ingestion/Runs has the
--     IngestionRun objects. Tuning: the loop that finalizeEval and finalizeIngest form, composed
--     here, with every re-index taken to succeed.
--   Deletion: deletion_controller.go. Reconcile: Reconcile of knowledgebase_controller.go, which calls
--     all of the above. Backup and Restore: backup_controller.go and restore_controller.go.
--   Stages: the life of a Backup or Restore, as steps that know nothing of calls; Backup/Stages and
--     Restore/Stages compare.
--   Metrics: observeSuccessfulIngestion of metrics.go, the one metric with a state of its own,
--     over any sequence of the reconcilers' calls of it; their models leave the calls out.
--   Retriever: retriever_controller.go. Its children follow the pass: Secrets (validateRetrieverSecrets,
--     computeSecretsHash), Environment and Deployment (desiredDeployment), Objects (the other objects),
--     Apply (how they are brought to the server), Pass (Reconcile), Watches (SetupWithManager).
--   Watches: SetupWithManager of knowledgebase_controller.go. Pods: the parts of a pod in jobs.go.
--   VectorIndex: vectorindex_controller.go, with its cache in VectorIndex/Cache and its pass in
--     VectorIndex/Health; HTTP, SQL and Secrets are the parameter `Stores`.
--   History: its child Launches says which Job a part of a pass asks for; the modules called Keeps and Starts
--     say of each handler what it leaves, and Reconcile/Flight puts them together for a whole pass. The modules
--     called Success follow the calls where none is refused, or only those for Jobs and statuses are;
--     Reconcile/Working, Progress, Conclusion and Discarding do so for a whole pass: the start, the end and
--     the loss of an ingestion. Reconcile/Readiness composes the first two, and Reconcile/Orphans has the
--     pass after a start whose status was refused.
--   Startup: cmd/main.go (parseWatchNamespaces, initTracer, main), with a Host that answers its calls.
--   Fixtures and the modules called Tests: concrete objects, and the theorems at them.
--
-- A Go int that the CRD keeps at 0 or more is a number of unbounded size; times are nanoseconds since the
-- zero time of Go, and a number of seconds from the spec becomes a Duration modulo 2^64.
-- `retry_on_conflict` recurses on the attempts that are left, `Server.retry_steps` of them after the
-- first, as retry.DefaultRetry has a fixed number; the decimal digits of n are taken in
-- at most n + 1 rounds, which is enough. No other function takes fuel.
--
-- Not modelled: messages, events' texts, metrics but the one above, which no pass reads, logs and
-- traces; node selectors of worker Jobs, tolerations and affinity, which are copied from the spec;
-- owner references beyond the call that may refuse them; the watches that only name a type of object.
-- The generated deep copies and the Python worker are left out as a whole. What the
-- objects of a Retriever make Kubernetes do is not modelled either: a Deployment is a record, and the
-- replicas that become ready are the parameter `Live` of Retriever/Apply.
pub mod Prelude
pub mod Api
pub mod Platform
pub mod Pods
pub mod Retriever
pub mod Watches
pub mod Cluster
pub mod History
pub mod Chunking
pub mod Names
pub mod Labels
pub mod Status
pub mod Identity
pub mod Schedule
pub mod AutoTune
pub mod Jobs
pub mod Decisions
pub mod Evaluation
pub mod Secrets
pub mod Ingestion
pub mod Tuning
pub mod Deletion
pub mod Reconcile
pub mod Stages
pub mod Backup
pub mod Restore
pub mod VectorIndex
pub mod Metrics
pub mod Startup
pub mod Fixtures
pub mod Tests
