-- ===== src/Retriever/Pass/Delivery.antt =====
-- A pass of the Retriever controller against a server that refuses nothing.
use kuberag.Prelude.{
  Text, ℕ, ◌≤◌, ◌<◌, ◌≡◌, refl, sym, ap, ◌∙◌, Bool, true, not, ◌||◌, Option, none, some, List, [],
  ◌∷◌, arith,
}
use mathlib.Core.Path.{subst}
use kuberag.Platform.{Platform}
use kuberag.Api.KnowledgeBase.{KnowledgeBase, Reason}
use kuberag.Api.Retriever.{Retriever, OidcSpec, RetrieverIngressSpec, available}
use kuberag.Api.Workloads.{Container, Deployment, deployments}
use kuberag.Cluster.{
  Server, History, Pass, M, Call, call, found, answer, Outcome, done, on_error, fails,
  read_knowledge_base, ApiError, read_workload, update_retriever_status,
}
use kuberag.VectorIndex.{VectorIndexHealth}
use kuberag.Retriever.{is_some, desired_minimum_replicas, workload_name}
use kuberag.Retriever.Secrets.{
  checked_refs, hashed_refs, validate_retriever_secrets, retriever_secrets_hash,
}
use kuberag.Retriever.Deployment.{
  proxy_container, proxy_containers, render_deployment, rendered, desired_deployment,
}
use kuberag.Pods.{scratch_volume}
use kuberag.Retriever.Apply.{Live, apply_objects}
use kuberag.Retriever.Apply.Effects.{apply_objects-Ensures}
use kuberag.Secrets.Frame.{append_secrets-Adds}
use kuberag.Retriever.Secrets.Checks.{validate_refs-Validated}
use kuberag.Retriever.Apply.Success.{apply_objects-Succeeds}
use kuberag.Retriever.Secrets.Success.{AllFilled, validate_refs-Succeeds}
use kuberag.Retriever.Pass.{
  enter, observed, index_ok, judged, store, fetch_ready, fetch_health, report, deploy, serve,
  serve_unless, use_knowledge_base, fetch_knowledge_base, reconcile,
}

-- The rule of the CRD: no OIDC without an Ingress.
abbrev pub ingress_given : Retriever → Bool
ingress_given rt = not (is_some rt.spec.oidc) || is_some rt.spec.ingress

module _ (live : Live) where
  -- No VectorIndex is Missing or Degraded.
  abbrev pub IndexFine : Type 0
  IndexFine = (h : History) (name : Text) → index_ok (found (live.index_health h name)) ≡ true

  -- What the spec of the Retriever and its Deployment need for it to be served.
  pub record Servable (rt : Retriever) : Type 0 where
    pub given : ingress_given rt ≡ true
    pub asked : 0 < desired_minimum_replicas rt
    pub enough :
        (h : History) → desired_minimum_replicas rt ≤ live.ready_replicas h (workload_name rt)

module _ (p : Platform) (s : Server) (live : Live)
    (taking : (h : History) (c : Call) → s.ack h c ≡ none) where
  -- The pass returns no error, and the Retriever is Available.
  abbrev Delivers : Outcome × Pass Retriever → Type 0
  Delivers out = (out.0 ≡ done) × (out.1.object.status.phase ≡ available)

  past_none :
      (e : Option ApiError) (rest : M Retriever Outcome) (w : Pass Retriever)
      → e ≡ none
      → Delivers (rest w)
      → Delivers (on_error e fails rest w)
  past_none none rest w h d = d
  past_none (some e) rest w h d = cc

  store-Delivers :
      (w : Pass Retriever) → w.object.status.phase ≡ available → Delivers (store p s live w)
  unfolding store call
  store-Delivers w h =
      past_none _ _ _ (taking w.log (update_retriever_status w.object.status)) (refl, h)

  judged-is_available :
      (ready : ℕ) (ok : Bool) (rt : Retriever)
      → desired_minimum_replicas rt ≤ ready
      → 0 < desired_minimum_replicas rt
      → ok ≡ true
      → (judged p ready ok (observed ready rt)).status.phase ≡ available
  unfolding judged enter observed desired_minimum_replicas
  judged-is_available ready ok rt h k o = ground arith

  index_ok-answer :
      (e : Option ApiError) (o : Option VectorIndexHealth)
      → index_ok (found o) ≡ true
      → index_ok (answer s e o) ≡ true
  unfolding index_ok
  index_ok-answer none o h = h
  index_ok-answer (some e) o h = refl

  report-Delivers :
      (kb : KnowledgeBase) (e : Option ApiError) (ready : ℕ) (w : Pass Retriever)
      → e ≡ none
      → desired_minimum_replicas w.object ≤ ready
      → 0 < desired_minimum_replicas w.object
      → IndexFine live
      → Delivers (report p s live kb (answer s e ready) w)
  unfolding report fetch_health
  report-Delivers kb (some e) ready w h enough asked fine = cc
  report-Delivers kb none ready w h enough asked fine =
      store-Delivers _
        (judged-is_available ready _ w.object enough asked (index_ok-answer _ _ (fine w.log _)))

  deploy-Delivers :
      (kb : KnowledgeBase) (dep : Deployment) (w : Pass Retriever)
      → ((h : History) → desired_minimum_replicas w.object ≤ live.ready_replicas h dep.name)
      → 0 < desired_minimum_replicas w.object
      → IndexFine live
      → Delivers (deploy p s live kb (some dep) w)
  unfolding deploy fetch_ready
  deploy-Delivers kb dep w enough asked fine =
      let u = (apply_objects s live w.object dep w).1 in
      let same = ((apply_objects-Ensures s live w.object dep).adds w).same_object in
      past_none _ _ u (apply_objects-Succeeds s taking live w.object dep w) (
        report-Delivers kb _ _ _ (taking u.log (read_workload deployments dep.name))
          (subst (λ rt. desired_minimum_replicas rt ≤ live.ready_replicas u.log dep.name) (sym same)
            (enough u.log))
          (subst (λ rt. 0 < desired_minimum_replicas rt) (sym same) asked) fine)

  containers-some :
      (o : Option OidcSpec) (i : Option RetrieverIngressSpec)
      → (not (is_some o) || is_some i) ≡ true
      → (l : List Container) × (proxy_containers o i ≡ some l)
  unfolding proxy_containers
  containers-some none i h = ([], refl)
  containers-some (some o) none h = cc
  containers-some (some o) (some i) h = (proxy_container o i ∷ [], refl)

  deployment-some :
      (rt : Retriever) (kb : KnowledgeBase) (hash : Text)
      → ingress_given rt ≡ true
      → (dep : Deployment) × (desired_deployment p rt kb hash ≡ some dep)
        × (dep.name ≡ workload_name rt)
  unfolding desired_deployment rendered render_deployment scratch_volume
  deployment-some rt kb hash h =
      let (l, e) = containers-some rt.spec.oidc rt.spec.ingress h in
      rw (e, desired_deployment) (_, refl, refl)

  serve-Delivers :
      (kb : KnowledgeBase) (w : Pass Retriever)
      → Servable live w.object
      → IndexFine live
      → Delivers (serve p s live kb w)
  unfolding serve retriever_secrets_hash
  serve-Delivers kb w able fine =
      let a = append_secrets-Adds s (hashed_refs w.object kb) w in
      let (hash, u) = retriever_secrets_hash s p w.object kb w in
      let (dep, rendered, name) = deployment-some w.object kb hash able.given in
      let good : Servable live u.object = subst (Servable live) (sym a.same_object) able in
      subst (λ d. Delivers (deploy p s live kb d u)) (sym rendered)
        (deploy-Delivers kb dep u
          (λ h.
            subst (λ n. desired_minimum_replicas u.object ≤ live.ready_replicas h n)
              (ap workload_name a.same_object ∙ sym name) (good.enough h))
          good.asked fine)

  serve_unless-Delivers :
      (kb : KnowledgeBase) (fault : Option Reason) (w : Pass Retriever)
      → fault ≡ none
      → Servable live w.object
      → IndexFine live
      → Delivers (serve_unless p s live kb fault w)
  unfolding serve_unless
  serve_unless-Delivers kb none w h = serve-Delivers kb w
  serve_unless-Delivers kb (some reason) w h = cc

  use_knowledge_base-Delivers :
      (kb : KnowledgeBase) (e : Option ApiError) (w : Pass Retriever)
      → e ≡ none
      → AllFilled s (checked_refs w.object kb)
      → Servable live w.object
      → IndexFine live
      → Delivers (use_knowledge_base p s live (answer s e kb) w)
  unfolding use_knowledge_base validate_retriever_secrets
  use_knowledge_base-Delivers kb none w h filled able fine =
      let refs = checked_refs w.object kb in
      let check = validate_refs-Validated s refs w in
      let (fault, u) = validate_retriever_secrets s w.object kb w in
      serve_unless-Delivers kb fault u (validate_refs-Succeeds s taking refs w filled)
        (subst (Servable live) (sym check.adds.same_object) able) fine
  use_knowledge_base-Delivers kb (some e) w h filled able fine = cc

  -- Against a server that refuses nothing, gives a value that is not empty for every Secret that
  -- validateRetrieverSecrets checks, has the minimum of replicas ready, which is not 0, and tells
  -- of no Missing or Degraded VectorIndex, one pass makes a Retriever Available, if it has an Ingress
  -- or no OIDC.
  pub reconcile-Delivers :
      (w : Pass Retriever)
      → AllFilled s
          (checked_refs w.object (s.knowledge_base w.log w.object.spec.knowledge_base_ref))
      → Servable live w.object
      → IndexFine live
      → ((reconcile p s live w).0 ≡ done)
        × ((reconcile p s live w).1.object.status.phase ≡ available)
  unfolding reconcile fetch_knowledge_base
  reconcile-Delivers w filled able fine =
      use_knowledge_base-Delivers (s.knowledge_base w.log w.object.spec.knowledge_base_ref) _ _
        (taking w.log (read_knowledge_base w.object.spec.knowledge_base_ref)) filled able fine
