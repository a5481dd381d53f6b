-- ===== src/Retriever/Pass.antt =====
-- One pass of the Retriever controller, on the object that its first read returned. Messages and
-- traces are not modelled.
pub mod Outcomes
pub mod Ends
pub mod Phases
pub mod Delivery
use kuberag.Prelude.{
  ltb, leb, if◌then◌else◌, Text, codes, ℕ, Bool, true, false, ◌&&◌, Option, none, some, [], ◌∷◌,
  ◌++◌,
}
use kuberag.Platform.{Platform}
use kuberag.Api.KnowledgeBase.{
  KnowledgeBase, Reason, available_condition, knowledge_base_not_found, minimum_replicas_available,
  vector_index_unhealthy, progressing_reason,
}
use kuberag.Api.Retriever.{
  Retriever, RetrieverIngressSpec, RetrieverPhase, pending, available, progressing,
}
use kuberag.Api.Workloads.{Deployment, deployments}
use kuberag.Names.{trunc_name}
use kuberag.Cluster.{
  ◌>>=◌, ◌>>◌, Server, other, M, pure, get, modify, call, answer, on_error, Got, found, refused,
  is_not_found, Outcome, done, fails, read_knowledge_base, read_workload, read_vector_index,
  update_retriever_status,
}
use kuberag.VectorIndex.{VectorIndexHealth, degraded, missing}
use kuberag.Retriever.{desired_minimum_replicas, workload_name}
use kuberag.Retriever.Secrets.{validate_retriever_secrets, retriever_secrets_hash}
use kuberag.Retriever.Deployment.{scheme, desired_deployment}
use kuberag.Retriever.Objects.{ingress_path}
use kuberag.Retriever.Apply.{Live, apply_objects, remove_retriever_workload}

-- setRetrieverCond, after an assignment to the phase.
unfoldable pub enter : Platform → RetrieverPhase → Bool → Reason → Retriever → Retriever
enter p phase ok reason rt = record rt {
  status = record (rt.status) {
    phase = phase;
    conditions = p.set_status_condition rt.status.conditions (record {
      type = available_condition;
      status = ok;
      reason = reason;
      observed_generation = rt.generation;
    });
  };
}

unfoldable pub withheld : Platform → Reason → Retriever → Retriever
withheld p reason rt = enter p pending false reason (record rt {
  status = record (rt.status) {
    ready_replicas = 0;
    service_endpoint = [];
    public_endpoint = [];
    observed_generation = rt.generation;
  };
})

unfoldable pub public_url : Option RetrieverIngressSpec → Text
public_url none = []
public_url (some i) = scheme i ++ (codes "://" ++ (i.host ++ ingress_path i))

unfoldable pub observed : ℕ → Retriever → Retriever
observed ready rt = record rt {
  status = record (rt.status) {
    ready_replicas = ready;
    observed_generation = rt.generation;
    service_endpoint =
        codes "http://" ++ (workload_name rt ++ b'.' ∷ (rt.namespace ++ codes ".svc:8000"));
    public_endpoint = public_url rt.spec.ingress;
  };
}

-- A VectorIndex that cannot be read counts as healthy.
unfoldable pub index_ok : Got (Option VectorIndexHealth) → Bool
index_ok (found (some missing)) = false
index_ok (found (some degraded)) = false
index_ok _ = true

unfoldable pub judged : Platform → ℕ → Bool → Retriever → Retriever
judged p ready ok rt =
    let minimum = desired_minimum_replicas rt in
    if leb minimum ready && ltb 0 minimum
    then (if ok
        then enter p available true minimum_replicas_available rt
        else enter p progressing false vector_index_unhealthy rt)
    else enter p progressing false progressing_reason rt

module _ (p : Platform) (s : Server) (live : Live) where
  -- `return ctrl.Result{}, r.Status().Update(ctx, &rt)`
  unfoldable pub store : M Retriever Outcome
  store = do
    rt ← get
    err ← call s (update_retriever_status rt.status)
    on_error err fails (pure done)

  unfoldable pub withhold : Reason → M Retriever Outcome
  withhold reason = do
    rt ← get
    err ← remove_retriever_workload s rt
    on_error err fails do modify (withheld p reason); store

  unfoldable pub fetch_ready : Text → M Retriever (Got ℕ)
  fetch_ready name w = (
    answer s (s.ack w.log (read_workload deployments name)) (live.ready_replicas w.log name),
    record w { log = read_workload deployments name ∷ w.log },
  )

  unfoldable pub fetch_health : Text → M Retriever (Got (Option VectorIndexHealth))
  fetch_health name w = (
    answer s (s.ack w.log (read_vector_index name)) (live.index_health w.log name),
    record w { log = read_vector_index name ∷ w.log },
  )

  -- From the read of the Deployment on.
  unfoldable pub report : KnowledgeBase → Got ℕ → M Retriever Outcome
  report kb (refused e) = fails e
  report kb (found ready) = do
    modify (observed ready)
    health ← fetch_health (trunc_name p (kb.name ++ codes "-index"))
    modify (judged p ready (index_ok health))
    store

  -- A panic leaves the pass; the runtime reports an error.
  unfoldable pub deploy : KnowledgeBase → Option Deployment → M Retriever Outcome
  deploy kb none = fails (other (codes "panic: nil pointer dereference"))
  deploy kb (some dep) = do
    rt ← get
    err ← apply_objects s live rt dep
    on_error err fails do ready ← fetch_ready dep.name; report kb ready

  unfoldable pub serve : KnowledgeBase → M Retriever Outcome
  serve kb = do
    rt ← get
    hash ← retriever_secrets_hash s p rt kb
    deploy kb (desired_deployment p rt kb hash)

  -- On what the validation of the secrets finds.
  unfoldable pub serve_unless : KnowledgeBase → Option Reason → M Retriever Outcome
  serve_unless kb (some reason) = withhold reason
  serve_unless kb none = serve kb

  -- From the read of the KnowledgeBase on.
  unfoldable pub use_knowledge_base : Got KnowledgeBase → M Retriever Outcome
  use_knowledge_base (refused e) =
      if is_not_found e then withhold knowledge_base_not_found else fails e
  use_knowledge_base (found kb) = do
    rt ← get
    fault ← validate_retriever_secrets s rt kb
    serve_unless kb fault

  unfoldable pub fetch_knowledge_base : Text → M Retriever (Got KnowledgeBase)
  fetch_knowledge_base name w = (
    answer s (s.ack w.log (read_knowledge_base name)) (s.knowledge_base w.log name),
    record w { log = read_knowledge_base name ∷ w.log },
  )

  unfoldable pub reconcile : M Retriever Outcome
  reconcile = do
    rt ← get
    got ← fetch_knowledge_base rt.spec.knowledge_base_ref
    use_knowledge_base got
