-- ===== src/Ingestion/Refused.antt =====
-- startIngest against a server that refuses the status or the Job.
use kuberag.Prelude.{Text, ◌+◌, ◌*◌, ◌≡◌, refl, sym, ap, ◌∙◌, true, false, none, some, [], ◌∷◌}
use mathlib.Core.Path.{subst}
use kuberag.Platform.{Platform}
use kuberag.Api.KnowledgeBase.{
  KnowledgeBase, KnowledgeBaseStatus, ChunkingSpec, IngestMode, ingestion_started,
}
use kuberag.Api.Jobs.{Job}
use kuberag.Cluster.{
  Server, History, Pass, ApiError, already_exists, attempt, time_now, create_job, update_status,
  event, Outcome, done, requeue_after, second, on_error,
}
use kuberag.Decisions.{IngestReason}
use kuberag.Evaluation.Success.{launch-Ready}
use kuberag.History.{Accepted, Takes}
use kuberag.History.Keeps.{Accepted-IsSteady, by_calls}
use kuberag.Jobs.{build_ingest_job, spec_config_map_size_ok}
use kuberag.Status.{set_condition, with_status}
use kuberag.Status.Keeps.{status_update-Keeps}
use kuberag.Status.Success.{update_and_return-refused}
use kuberag.Ingestion.{launch_ingest, start_ingest, mode_for}
use kuberag.Ingestion.Runs.{record_run}
use kuberag.Ingestion.Runs.Keeps.{record_run-Keeps}
use kuberag.Ingestion.Runs.Success.{record_run-succeeds}
use kuberag.Ingestion.Starts.{begun, launch_built}

-- The object that startIngest builds a Job for.
abbrev pub rounded : KnowledgeBase → KnowledgeBase
rounded =
    with_status (λ st. record st { defer_cron_ingest = false; ingest_round = st.ingest_round + 1 })

pub start_ingest-launches :
    (p : Platform) (s : Server) (eff : ChunkingSpec) (hash secrets_hash : Text)
    (reason : IngestReason) (u : Pass KnowledgeBase) (job : Job) (spec : Text)
    → let mode = mode_for (rounded u.object) reason in
      build_ingest_job p (rounded u.object) hash secrets_hash mode eff ≡ some (job, spec)
      → spec_config_map_size_ok spec ≡ true
      → start_ingest p s eff hash secrets_hash reason u
        ≡ launch_ingest p s job spec mode hash eff (record u { object = rounded u.object })
unfolding start_ingest
start_ingest-launches p s eff hash secrets_hash reason u job spec built fits =
    let mode = mode_for (rounded u.object) reason in
    ap (λ b. launch_built p s mode hash eff b (record u { object = rounded u.object })) built
    ∙ rw fits refl

-- The server took the Job, but not the status that names it.
pub record Unsaved (s : Server) (e : ApiError) (name : Text) (end : Outcome × Pass KnowledgeBase)
    : Type 0 where
  pub job : Job
  pub named : job.name ≡ name
  pub created : Accepted s (create_job job) end.1.log
  pub result : end.0 ≡ Outcome.failed e

module _ (p : Platform) (s : Server) (takes : Takes s) (e : ApiError)
    (creates : (h : History) (job : Job) → s.ack h (create_job job) ≡ none)
    (refuses : (h : History) (st : KnowledgeBaseStatus) → s.ack h (update_status st) ≡ some e) where
  pub launch_ingest-Unsaved :
      (job : Job) (spec : Text) (mode : IngestMode) (hash : Text) (eff : ChunkingSpec)
      (u : Pass KnowledgeBase)
      → Unsaved s e job.name (launch_ingest p s job spec mode hash eff u)
  unfolding launch_ingest time_now attempt set_condition
  launch_ingest-Unsaved job spec mode hash eff u =
      let ready = launch-Ready p s takes job spec [] u in
      let v : Pass KnowledgeBase = record (ready.at) { log = create_job job ∷ ready.at.log } in
      let r = record_run s job.name mode hash eff v in
      let good = record_run-succeeds s takes job.name mode hash eff v in
      let st = Accepted-IsSteady s (create_job job) in
      let took : Accepted s (create_job job) v.log = Accepted.here (creates _ _) in
      let noted = record_run-Keeps s _ (by_calls st) job.name mode hash eff v took in
      let z : Pass KnowledgeBase = record {
        object = begun p job.name (s.now r.1.log) r.1.object;
        log = event false ingestion_started ∷ r.1.log;
      } in
      let end = update_and_return-refused s takes e refuses (requeue_after (10 * second)) z in
      subst (Unsaved s e job.name) (sym (ready.taken _ (creates _ _))) (
        rw (good, on_error)
          (subst (Unsaved s e job.name) (sym end) (record {
            job = job;
            named = refl;
            created = status_update-Keeps s _ st z (Accepted.there noted);
            result = refl;
          })))

module _ (p : Platform) (s : Server) (takes : Takes s) where
  pub launch_ingest-exists :
      (job : Job) (spec : Text) (mode : IngestMode) (hash : Text) (eff : ChunkingSpec)
      (u : Pass KnowledgeBase)
      → ((h : History) → s.ack h (create_job job) ≡ some already_exists)
      → let end = launch_ingest p s job spec mode hash eff u in
        (end.0 ≡ done) × (end.1.object ≡ u.object)
  unfolding launch_ingest
  launch_ingest-exists job spec mode hash eff u known =
      let ready = launch-Ready p s takes job spec [] u in
      let same = ready.exists _ (known ready.at.log) in
      (ap (λ r. r.0) same, ap (λ r. r.1.object) same ∙ ready.same_object)
