-- ===== src/Retriever/Deployment/Known.antt =====
-- The Secrets that the containers of a Retriever get, against those that were checked before.
use kuberag.Prelude.{
  Text, codes, ◌≡◌, refl, sym, ◌⊎◌, inl, inr, Option, none, some, List, [], ◌∷◌, ◌++◌,
}
use mathlib.Core.Path.{subst}
use kuberag.Platform.{Platform}
use kuberag.Api.KnowledgeBase.{KnowledgeBase, SecretKeyRef}
use kuberag.Api.Retriever.{Retriever, OidcSpec, RetrieverIngressSpec}
use kuberag.Api.Pods.{Volume}
use kuberag.Api.Workloads.{Deployment, Container}
use kuberag.Jobs.{secret_env}
use kuberag.Secrets.{labelled}
use kuberag.Retriever.Secrets.{redis_ref, generation_ref, oidc_refs, checked_refs}
use kuberag.Retriever.Environment.{query_embedding, retriever_env}
use kuberag.Retriever.Deployment.Mounted.{AllAllowed, retriever_env-Allowed}
use kuberag.Retriever.Deployment.{
  server_container, proxy_container, proxy_containers, render_deployment, rendered,
  desired_deployment,
}

-- A reference stands in a list.
pub data Listed (ref : SecretKeyRef) : List (Text × SecretKeyRef) → Type 0 where
  first : {label : Text} {rest : List (Text × SecretKeyRef)} → Listed ref ((label, ref) ∷ rest)
  later :
      {x : Text × SecretKeyRef} {rest : List (Text × SecretKeyRef)}
      → Listed ref rest
      → Listed ref (x ∷ rest)

Listed-left :
    (ref : SecretKeyRef) (xs ys : List (Text × SecretKeyRef))
    → Listed ref xs
    → Listed ref (xs ++ ys)
Listed-left ref [] ys l = elim l [ ]
Listed-left ref (x ∷ xs) ys first = first
Listed-left ref (x ∷ xs) ys (later l) = later (Listed-left ref xs ys l)

Listed-right :
    (ref : SecretKeyRef) (xs ys : List (Text × SecretKeyRef))
    → Listed ref ys
    → Listed ref (xs ++ ys)
Listed-right ref [] ys l = l
Listed-right ref (x ∷ xs) ys l = later (Listed-right ref xs ys l)

-- A Secret that validateRetrieverSecrets checks, or the key of the embeddings that are in the store.
abbrev pub Known : Retriever → KnowledgeBase → SecretKeyRef → Type 0
Known rt kb ref =
    Listed ref (checked_refs rt kb) ⊎ ((query_embedding kb).api_key_secret_ref ≡ some ref)

abbrev pub AllKnown : Retriever → KnowledgeBase → List Container → Type 0
AllKnown rt kb [] = Unit
AllKnown rt kb (c ∷ cs) = AllAllowed (Known rt kb) c.env × AllKnown rt kb cs

Listed-labelled :
    (ref : SecretKeyRef) (label : Text) (o : Option SecretKeyRef)
    → o ≡ some ref
    → Listed ref (labelled label o)
Listed-labelled ref label none h = cc
Listed-labelled ref label (some r) h =
    let e : ref ≡ r = cc in subst (λ x. Listed ref ((label, x) ∷ [])) e first

module _ (rt : Retriever) (kb : KnowledgeBase) where
  abbrev Refs : Type 0
  Refs = List (Text × SecretKeyRef)

  -- The six groups of references, under the labels of the code.
  abbrev store_refs : Refs
  store_refs =
      labelled (codes "vector store credentials") kb.spec.vector_store.credentials_secret_ref

  abbrev keys_refs : Refs
  keys_refs = labelled (codes "embedding API key") kb.spec.embedding.api_key_secret_ref

  abbrev auth_refs : Refs
  auth_refs = labelled (codes "retriever API key") rt.spec.api_key_secret_ref

  abbrev redis_refs : Refs
  redis_refs = labelled (codes "rate-limit Redis URL") (redis_ref rt.spec.rate_limit)

  abbrev generation_refs : Refs
  generation_refs = labelled (codes "generation API key") (generation_ref rt.spec.generation)

  abbrev proxy_refs : Refs
  proxy_refs =
      oidc_refs (codes "OIDC client ID") (codes "OIDC client secret") (codes "OIDC cookie secret")
        rt.spec.oidc

  in_store : (ref : SecretKeyRef) → Listed ref store_refs → Listed ref (checked_refs rt kb)
  unfolding checked_refs
  in_store ref l = Listed-left ref store_refs _ l

  -- Behind the first two groups.
  behind :
      (ref : SecretKeyRef)
      → Listed ref (auth_refs ++ (redis_refs ++ (generation_refs ++ proxy_refs)))
      → Listed ref (checked_refs rt kb)
  unfolding checked_refs
  behind ref l = Listed-right ref store_refs _ (Listed-right ref keys_refs _ l)

  in_auth : (ref : SecretKeyRef) → Listed ref auth_refs → Listed ref (checked_refs rt kb)
  in_auth ref l = behind ref (Listed-left ref auth_refs _ l)

  in_redis : (ref : SecretKeyRef) → Listed ref redis_refs → Listed ref (checked_refs rt kb)
  in_redis ref l = behind ref (Listed-right ref auth_refs _ (Listed-left ref redis_refs _ l))

  in_generation :
      (ref : SecretKeyRef) → Listed ref generation_refs → Listed ref (checked_refs rt kb)
  in_generation ref l = behind ref (
      Listed-right ref auth_refs _
        (Listed-right ref redis_refs _ (Listed-left ref generation_refs _ l)))

  in_proxy : (ref : SecretKeyRef) → Listed ref proxy_refs → Listed ref (checked_refs rt kb)
  in_proxy ref l = behind ref (
      Listed-right ref auth_refs _
        (Listed-right ref redis_refs _ (Listed-right ref generation_refs proxy_refs l)))

  server-AllKnown : AllAllowed (Known rt kb) (retriever_env rt kb)
  server-AllKnown =
      retriever_env-Allowed (Known rt kb) rt kb
        (λ ref h. inl (in_store ref (Listed-labelled ref (codes "vector store credentials") _ h)))
        (λ ref h. inr h)
        (λ ref h. inl (in_auth ref (Listed-labelled ref (codes "retriever API key") _ h)))
        (λ ref h. inl (in_redis ref (Listed-labelled ref (codes "rate-limit Redis URL") _ h)))
        (λ ref h. inl (in_generation ref (Listed-labelled ref (codes "generation API key") _ h)))

  proxy_container-AllKnown :
      (o : OidcSpec) (i : RetrieverIngressSpec)
      → rt.spec.oidc ≡ some o
      → AllAllowed (Known rt kb) (proxy_container o i).env
  unfolding proxy_container secret_env oidc_refs
  proxy_container-AllKnown o i e =
      let listed : (ref : SecretKeyRef)
          → Listed ref (
              oidc_refs (codes "OIDC client ID") (codes "OIDC client secret")
                (codes "OIDC cookie secret") (some o))
          → Known rt kb ref =
        λ ref l. inl (
          in_proxy ref (
            subst
              (λ x. Listed ref (
                oidc_refs (codes "OIDC client ID") (codes "OIDC client secret")
                  (codes "OIDC cookie secret") x))
              (sym e) l)) in
      (listed _ first, (listed _ (later first), (listed _ (later (later first)), tt)))

  proxies-AllKnown :
      (o : Option OidcSpec) (i : Option RetrieverIngressSpec) (l : List Container)
      → rt.spec.oidc ≡ o
      → proxy_containers o i ≡ some l
      → AllKnown rt kb l
  unfolding proxy_containers
  proxies-AllKnown none i l e h = let same : [] ≡ l = cc in subst (AllKnown rt kb) same tt
  proxies-AllKnown (some o) none l e h = cc
  proxies-AllKnown (some o) (some i) l e h =
      let same : proxy_container o i ∷ [] ≡ l = cc in
      subst (AllKnown rt kb) same (proxy_container-AllKnown o i e, tt)

  rendered-AllKnown :
      (hash : Text) (scratch : Option Volume) (l : Option (List Container)) (dep : Deployment)
      → proxy_containers rt.spec.oidc rt.spec.ingress ≡ l
      → rendered rt kb hash scratch l ≡ some dep
      → AllKnown rt kb dep.containers
  unfolding rendered render_deployment server_container
  rendered-AllKnown hash (some v) (some l) dep e h =
      let same : render_deployment rt kb hash v l ≡ dep = cc in
      subst (λ d. AllKnown rt kb d.containers) same
        (server-AllKnown, proxies-AllKnown rt.spec.oidc rt.spec.ingress l refl e)
  rendered-AllKnown hash none l dep e h = cc
  rendered-AllKnown hash (some v) none dep e h = cc

  -- Every Secret that a container of the rendered Deployment gets is one that
  -- validateRetrieverSecrets checks, or the API key of the embeddings that are in the store.
  pub desired_deployment-AllKnown :
      (p : Platform) (hash : Text) (dep : Deployment)
      → desired_deployment p rt kb hash ≡ some dep
      → AllKnown rt kb dep.containers
  unfolding desired_deployment
  desired_deployment-AllKnown p hash dep = rendered-AllKnown hash _ _ dep refl
