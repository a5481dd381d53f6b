-- ===== src/Ingestion/Success.antt =====
-- startIngest against a server that refuses nothing.
use kuberag.Prelude.{
  is_empty, Text, ◌+◌, ◌*◌, ◌≡◌, refl, sym, ap, ◌∙◌, true, false, none, some, [], ◌∷◌,
}
use mathlib.Core.Path.{subst}
use kuberag.Platform.{Platform}
use kuberag.Api.KnowledgeBase.{
  KnowledgeBase, KnowledgeBaseStatus, ChunkingSpec, IngestMode, Phase, ingestion_started,
}
use kuberag.Api.Jobs.{Job}
use kuberag.Cluster.{
  Server, History, Call, Pass, attempt, time_now, create_job, update_status, event, Outcome,
  requeue_after, second, on_error,
}
use kuberag.History.{Accepted, Takes}
use kuberag.History.Keeps.{Same-IsCalled, by_calls, Accepted-IsSteady}
use kuberag.History.Launches.{active}
use kuberag.Status.{update_and_return, set_condition, with_status}
use kuberag.Status.Keeps.{update_and_return-Keeps}
use kuberag.Status.Success.{update_and_return-Stores}
use kuberag.Decisions.{IngestReason}
use kuberag.Evaluation.Success.{launch-Ready}
use kuberag.Ingestion.Runs.Keeps.{record_run-Keeps}
use kuberag.Ingestion.Runs.Success.{record_run-succeeds}
use kuberag.Ingestion.Runs.{record_run}
use kuberag.Ingestion.Starts.{begun, launch_built}
use kuberag.Jobs.Labelled.{IsLabelled, build_ingest_job-filled, build_ingest_job-IsLabelled}
use kuberag.Jobs.{build_ingest_job, spec_config_map_size_ok}
use kuberag.Ingestion.{launch_ingest, start_ingest, mode_for}

abbrev pub put : KnowledgeBaseStatus → KnowledgeBase → KnowledgeBase
put st kb = record kb { status = st }

-- An object that differs from the other in its status alone.
abbrev pub SameBut : KnowledgeBase → KnowledgeBase → Type 0
SameBut kb' kb = kb' ≡ record kb { status = kb'.status }

-- From `w` a pass ends with an ingestion begun: the server took the Job, which has the hashes given and is
-- the active one in the status that the server took too, nothing but the status has changed, and the next
-- look is in ten seconds. The status has the time that the clock showed at `started`.
pub record Begins (s : Server) (hash secrets_hash : Text) (w : KnowledgeBase)
    (end : Outcome × Pass KnowledgeBase) : Type 0 where
  pub result : end.0 ≡ requeue_after (10 * second)
  pub job : Job
  pub named : is_empty job.name ≡ false
  pub started : History
  pub hashed : job.labels.spec_hash ≡ hash
  pub keyed : job.labels.secrets_hash ≡ secrets_hash
  pub created : Accepted s (create_job job) end.1.log
  pub followed : active end.1 ≡ job.name
  pub phase : end.1.object.status.phase ≡ Phase.ingesting
  pub started_at : end.1.object.status.active_job_started_at ≡ some (s.now started)
  pub frame : SameBut end.1.object w
  pub stored : Accepted s (update_status end.1.object.status) end.1.log

pub reframe :
    (s : Server) (hash secrets_hash : Text) (w v : KnowledgeBase)
    → SameBut v w
    → (end : Outcome × Pass KnowledgeBase) → Begins s hash secrets_hash v end
    → Begins s hash secrets_hash w end
reframe s hash secrets_hash w v same end b = record {
  result = b.result;
  job = b.job;
  named = b.named;
  started = b.started;
  started_at = b.started_at;
  hashed = b.hashed;
  keyed = b.keyed;
  created = b.created;
  followed = b.followed;
  phase = b.phase;
  frame = b.frame ∙ ap (put end.1.object.status) same;
  stored = b.stored;
}

-- The Job of an ingestion can be built and its spec fits into a ConfigMap, whatever the status is.
pub record Builds (p : Platform) (kb : KnowledgeBase) (hash secrets_hash : Text) (mode : IngestMode)
    (eff : ChunkingSpec) : Type 0 where
  pub job : Job
  pub spec : Text
  pub built : build_ingest_job p kb hash secrets_hash mode eff ≡ some (job, spec)
  pub fits : spec_config_map_size_ok spec ≡ true

module _ (p : Platform) (s : Server) (taking : (h : History) (c : Call) → s.ack h c ≡ none) where
  launch_ingest-Begins :
      (job : Job) (spec : Text) (mode : IngestMode) (hash : Text) (eff : ChunkingSpec)
      (u : Pass KnowledgeBase) (secrets_hash : Text)
      → is_empty job.name ≡ false
      → job.labels.spec_hash ≡ hash
      → job.labels.secrets_hash ≡ secrets_hash
      → Begins s hash secrets_hash u.object (launch_ingest p s job spec mode hash eff u)
  unfolding launch_ingest time_now attempt set_condition
  launch_ingest-Begins job spec mode hash eff u secrets_hash named hashed keyed =
      let takes : Takes s = λ h c plain. taking h c in
      let ready = launch-Ready p s takes job spec [] u in
      let v : Pass KnowledgeBase = record (ready.at) { log = create_job job ∷ ready.at.log } in
      let took : Accepted s (create_job job) v.log = Accepted.here (taking _ _) in
      let r = record_run s job.name mode hash eff v in
      let good = record_run-succeeds s takes job.name mode hash eff v in
      let unmoved : r.1.object ≡ u.object =
        record_run-Keeps s (λ x. x.object ≡ u.object) (Same-IsCalled u.object) job.name mode hash
          eff v ready.same_object in
      let st = Accepted-IsSteady s (create_job job) in
      let noted = record_run-Keeps s _ (by_calls st) job.name mode hash eff v took in
      let kb = begun p job.name (s.now r.1.log) r.1.object in
      let z : Pass KnowledgeBase = record {
        object = kb;
        log = event false ingestion_started ∷ r.1.log;
      } in
      let kept =
        update_and_return-Keeps s _ st (requeue_after (10 * second)) z (Accepted.there noted) in
      let end = update_and_return s (requeue_after (10 * second)) z in
      let law = update_and_return-Stores s taking (requeue_after (10 * second)) z in
      subst (Begins s hash secrets_hash u.object) (sym (ready.taken _ (taking _ _))) (
        rw (good, on_error)
          (record {
            result = law.result;
            job = job;
            named = named;
            started = r.1.log;
            started_at = ap (λ kb. kb.status.active_job_started_at) law.same_object;
            hashed = hashed;
            keyed = keyed;
            frame =
                subst (λ o. SameBut o u.object) (sym law.same_object) (ap (put kb.status) unmoved);
            created = kept;
            followed = ap (λ kb. kb.status.active_job) law.same_object;
            phase = ap (λ kb. kb.status.phase) law.same_object;
            stored =
                subst (λ kb. Accepted s (update_status kb.status) end.1.log) (sym law.same_object)
                  law.stored;
          }))

  launch_built-Begins :
      (mode : IngestMode) (hash secrets_hash : Text) (eff : ChunkingSpec) (job : Job) (spec : Text)
      (u : Pass KnowledgeBase)
      → is_empty job.name ≡ false
      → IsLabelled job hash secrets_hash eff
      → spec_config_map_size_ok spec ≡ true
      → Begins s hash secrets_hash u.object (launch_built p s mode hash eff (some (job, spec)) u)
  launch_built-Begins mode hash secrets_hash eff job spec u named labels fits = rw fits (
      launch_ingest-Begins job spec mode hash eff u secrets_hash named labels.spec_hash
        labels.secrets_hash)

  pub start_ingest-Begins :
      (eff : ChunkingSpec) (hash secrets_hash : Text) (reason : IngestReason)
      (u : Pass KnowledgeBase)
      → ((st : KnowledgeBaseStatus) (mode : IngestMode)
          → Builds p (record (u.object) { status = st }) hash secrets_hash mode eff)
      → Begins s hash secrets_hash u.object (start_ingest p s eff hash secrets_hash reason u)
  unfolding start_ingest
  start_ingest-Begins eff hash secrets_hash reason u builds =
      let kb =
        with_status
          (λ st. record st { defer_cron_ingest = false; ingest_round = st.ingest_round + 1 })
          u.object in
      let v : Pass KnowledgeBase = record u { object = kb } in
      let mode = mode_for kb reason in
      let b = builds kb.status mode in
      let named = build_ingest_job-filled p kb hash secrets_hash mode eff b.job b.spec b.built in
      let labels =
        build_ingest_job-IsLabelled p kb hash secrets_hash mode eff b.job b.spec b.built in
      let on = launch_built-Begins mode hash secrets_hash eff b.job b.spec v named labels b.fits in
      let on' : Begins s hash secrets_hash u.object
          (launch_built p s mode hash eff (some (b.job, b.spec)) v) =
        reframe s hash secrets_hash u.object kb refl _ on in
      subst (λ built. Begins s hash secrets_hash u.object (launch_built p s mode hash eff built v))
        (sym b.built) on'
