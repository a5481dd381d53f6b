-- ===== src/Retriever/Tests.antt =====
-- The theorems on Retrievers at concrete inputs.
use kuberag.Prelude.{text_eq, Text, codes, ◌≡◌, refl, true, Option, none, some, [], ◌∷◌, arith}
use kuberag.Api.KnowledgeBase.{SecretKeyRef}
use kuberag.Api.Retriever.{Retriever, RetrieverPhase, available}
use kuberag.Api.Workloads.{Deployment}
use kuberag.Cluster.{
  Server, Pass, Call, read_knowledge_base, ApiError, is_not_found, Outcome, History, done, call,
}
use kuberag.Identity.{◌before◌}
use kuberag.Api.Pods.{empty_dir}
use kuberag.Pods.{scratch_volume}
use kuberag.Retriever.{desired_minimum_replicas, minimum_of}
use kuberag.VectorIndex.{healthy}
use kuberag.Fixtures.{platform, server, kb}
use kuberag.Watches
use kuberag.Watches.{select, names_secret}
use kuberag.Watches.Complete.{mentions, secret_requests-secret_refs}
use kuberag.Secrets.{secret_refs}
use kuberag.Retriever.Secrets.{hashed_refs, checked_refs, redis_ref, generation_ref, oidc_refs}
use kuberag.Retriever.Secrets.Success.{Filled, AllFilled}
use kuberag.Retriever.Deployment.{desired_deployment, rendered, render_deployment, proxy_containers}
use kuberag.Retriever.Deployment.Known.{AllKnown, desired_deployment-AllKnown}
use kuberag.Retriever.Apply.{Live, remove_retriever_workload, remove, ignore_not_found}
use kuberag.Retriever.Apply.Effects.{WorkloadRemoved}
use kuberag.Retriever.Pass.{
  index_ok, reconcile, fetch_knowledge_base, use_knowledge_base, withhold, withheld, enter, store,
}
use kuberag.Retriever.Pass.Outcomes.{Stored}
use kuberag.Retriever.Pass.Phases.{Serves, reconcile-Serves, reconcile-Withholds}
use kuberag.Retriever.Pass.Delivery.{IndexFine, Servable, reconcile-Delivers}
use kuberag.Retriever.Watches.{
  secret_requests, is_referenced, redis_names, generation_names, oidc_names, knowledge_base_names,
}
use kuberag.Retriever.Watches.Complete.{secret_requests-refs}

abbrev ref : Text → SecretKeyRef
ref name = record { name = name; key = codes "value" }

-- Behind a proxy, with a shared rate limit and generated answers.
abbrev retriever : Retriever
retriever = record {
  name = codes "search";
  namespace = codes "rag";
  generation = 3;
  spec = record {
    knowledge_base_ref = codes "docs";
    api_key_secret_ref = none;
    rate_limit = some (record {
      enabled = none;
      requests_per_minute = 0;
      burst = 0;
      backend = codes "redis";
      redis_url_secret_ref = some (ref (codes "redis"));
      redis_key_prefix = [];
      client_identity_header = [];
    });
    max_concurrent_requests = 0;
    max_request_body_bytes = 0;
    pod_disruption_budget = none;
    autoscaling = none;
    ingress = some (record {
      host = codes "rag.example.org";
      class_name = [];
      path = [];
      annotations = [];
      tls_secret_name = codes "tls";
      cluster_issuer = codes "ca";
    });
    oidc = some (record {
      issuer_url = codes "https://id.example.org";
      client_id_secret_ref = ref (codes "oidc");
      client_secret_secret_ref = ref (codes "oidc");
      cookie_secret_ref = ref (codes "cookie");
      email_domains = [];
      groups = codes "staff" ∷ [];
      image = [];
    });
    generation = some (record {
      enabled = none;
      provider = codes "openai";
      model = codes "gpt-4o-mini";
      base_url = [];
      api_key_secret_ref = some (ref (codes "openai"));
      max_tokens = 0;
      system_prompt = [];
    });
    top_k = 0;
    hybrid = true;
    hybrid_dense_percent = none;
    score_threshold_percent = 0;
    rerank = none;
    replicas = 2;
    image = [];
    resources = none;
    node_selector = [];
  };
  status = record {
    phase = RetrieverPhase.unset;
    observed_generation = 0;
    service_endpoint = [];
    public_endpoint = [];
    ready_replicas = 0;
    conditions = [];
  };
}

abbrev start : Pass Retriever
start = record { object = retriever; log = [] }

abbrev live : Live
live = record {
  replicas = λ h name. some 2;
  ready_replicas = λ h name. 2;
  index_health = λ h name. some healthy;
}

-- The server that knows no KnowledgeBase.
abbrev empty_ack : Call → Option ApiError
empty_ack (read_knowledge_base name) = some ApiError.not_found
empty_ack _ = none

abbrev empty_server : Server
empty_server = record server { ack = λ h c. empty_ack c }

filled : AllFilled server (checked_refs retriever kb)
unfolding checked_refs redis_ref generation_ref oidc_refs text_eq
filled =
    let held : Filled server (ref (codes "x")) = λ h. (codes "s3cret", refl, refl) in
    (held, (held, (held, (held, (held, tt)))))

servable : Servable live retriever
unfolding desired_minimum_replicas minimum_of
servable = record { given = refl; asked = omega arith; enough = λ h. omega arith }

index_fine : IndexFine live
unfolding index_ok
index_fine h name = refl

taking : (h : History) (c : Call) → server.ack h c ≡ none
taking h c = refl

reconcile-Delivers_example :
    ((reconcile platform server live start).0 ≡ done)
    × ((reconcile platform server live start).1.object.status.phase ≡ available)
reconcile-Delivers_example =
    reconcile-Delivers platform server live taking start filled servable index_fine

abbrev ended : Outcome × Pass Retriever
ended = reconcile platform server live start

delivered : (ended.0 ≡ done) × (ended.1.object.status.phase ≡ available)
delivered = reconcile-Delivers platform server live taking start filled servable index_fine

reconcile-Serves_example :
    Stored platform server live ended.1 × Serves platform server live retriever ended.1
reconcile-Serves_example = reconcile-Serves platform server live start delivered.0 delivered.1

reconcile-Withholds_example :
    let w = (reconcile platform empty_server live start).1 in
    Stored platform empty_server live w × WorkloadRemoved empty_server retriever w.log
unfolding reconcile fetch_knowledge_base use_knowledge_base withhold withheld enter store call
    remove_retriever_workload remove ignore_not_found is_not_found ◌before◌
reconcile-Withholds_example = reconcile-Withholds platform empty_server live start refl refl

abbrev retriever_deployment : Deployment
retriever_deployment = elim (desired_deployment platform retriever kb (codes "00000000")) [
  | some dep ↦ dep
  | none ↦ render_deployment retriever kb [] (record { name = []; source = empty_dir none }) []
]

desired_deployment-AllKnown_example : AllKnown retriever kb retriever_deployment.containers
unfolding desired_deployment rendered proxy_containers scratch_volume
desired_deployment-AllKnown_example =
    desired_deployment-AllKnown retriever kb platform (codes "00000000") retriever_deployment refl

secret_requests-refs_example :
    let requests = secret_requests (λ name. some kb) (codes "cookie") (retriever ∷ []) in
    (requests
      ≡ select
          (λ rt. mentions (codes "cookie") (hashed_refs rt kb))
          (λ rt. rt.name)
          (retriever ∷ []))
    × (requests
        ≡ select
            (λ rt. mentions (codes "cookie") (checked_refs rt kb))
            (λ rt. rt.name)
            (retriever ∷ []))
secret_requests-refs_example = secret_requests-refs (λ name. kb) (codes "cookie") (retriever ∷ [])

secret_requests-secret_refs_example :
    Watches.secret_requests (codes "github") (kb ∷ [])
    ≡ select (λ kb. mentions (codes "github") (secret_refs kb)) (λ kb. kb.name) (kb ∷ [])
secret_requests-secret_refs_example = secret_requests-secret_refs (codes "github") (kb ∷ [])

-- The requests themselves.
cookie_requests :
    secret_requests (λ name. some kb) (codes "cookie") (retriever ∷ []) ≡ codes "search" ∷ []
unfolding secret_requests select is_referenced names_secret redis_names generation_names oidc_names
    knowledge_base_names text_eq
cookie_requests = refl
