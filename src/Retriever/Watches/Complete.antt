-- ===== src/Retriever/Watches/Complete.antt =====
-- The watch on Secrets against the references that a Retriever checks, hashes and mounts.
use kuberag.Prelude.{
  Text, codes, ◌≡◌, refl, sym, ◌∙◌, Bool, ◌||◌, Option, none, some, List, ◌++◌, arith,
}
use mathlib.Core.Path.{ap₂}
use kuberag.Api.KnowledgeBase.{KnowledgeBase, SecretKeyRef}
use kuberag.Api.Retriever.{Retriever, RateLimitSpec, GenerationSpec, OidcSpec}
use kuberag.Secrets.{labelled}
use kuberag.Watches.{select, names_secret}
use kuberag.Watches.Complete.{mentions, mentions-append, mentions-labelled, select-congr}
use kuberag.Retriever.Secrets.{redis_ref, generation_ref, oidc_refs, hashed_refs, checked_refs}
use kuberag.Retriever.Watches.{
  redis_names, generation_names, oidc_names, knowledge_base_names, is_referenced, secret_requests,
}

redis_names_lem :
    (secret : Text) (o : Option RateLimitSpec)
    → names_secret secret (redis_ref o) ≡ redis_names secret o
unfolding names_secret redis_ref redis_names
redis_names_lem secret none = refl
redis_names_lem secret (some r) = ground arith

generation_names_lem :
    (secret : Text) (o : Option GenerationSpec)
    → names_secret secret (generation_ref o) ≡ generation_names secret o
unfolding names_secret generation_ref generation_names
generation_names_lem secret none = refl
generation_names_lem secret (some g) = refl

mentions-oidc_refs :
    (secret a b c : Text) (o : Option OidcSpec)
    → mentions secret (oidc_refs a b c o) ≡ oidc_names secret o
unfolding mentions oidc_refs oidc_names
mentions-oidc_refs secret a b c none = refl
mentions-oidc_refs secret a b c (some o) = ground arith

-- The six groups of references, in the order of the hash and in that of the watch.
reorder_hashed :
    (v e a r o g : Bool) → v || (e || (a || (r || (o || g)))) ≡ a || (r || (g || (o || (v || e))))
reorder_hashed v e a r o g = ground arith

reorder_checked :
    (v e a r g o : Bool) → v || (e || (a || (r || (g || o)))) ≡ a || (r || (g || (o || (v || e))))
reorder_checked v e a r g o = ground arith

abbrev Groups : Type 0
Groups = List (Text × SecretKeyRef)

-- The tests of six groups, joined.
six :
    (secret : Text) (v e a r g o : Groups) {v' e' a' r' g' o' : Bool}
    → mentions secret v ≡ v'
    → mentions secret e ≡ e'
    → mentions secret a ≡ a'
    → mentions secret r ≡ r'
    → mentions secret g ≡ g'
    → mentions secret o ≡ o'
    → mentions secret (v ++ (e ++ (a ++ (r ++ (g ++ o)))))
      ≡ v' || (e' || (a' || (r' || (g' || o'))))
six secret v e a r g o hv he ha hr hg ho =
    join v _ hv (join e _ he (join a _ ha (join r _ hr (join g o hg ho))))
  where
    join :
        (xs ys : Groups) {x y : Bool}
        → mentions secret xs ≡ x
        → mentions secret ys ≡ y
        → mentions secret (xs ++ ys) ≡ x || y
    join xs ys hx hy = mentions-append secret xs ys ∙ ap₂ ◌||◌ hx hy

referenced-hashed_refs :
    (secret : Text) (rt : Retriever) (kb : KnowledgeBase)
    → is_referenced secret rt (some kb) ≡ mentions secret (hashed_refs rt kb)
unfolding is_referenced knowledge_base_names hashed_refs
referenced-hashed_refs secret rt kb =
    let vs = kb.spec.vector_store.credentials_secret_ref in
    let em = kb.spec.embedding.api_key_secret_ref in
    let key = rt.spec.api_key_secret_ref in
    let red = redis_ref rt.spec.rate_limit in
    let gen = generation_ref rt.spec.generation in
    sym (
      six secret (labelled (codes "vectorStore.credentials") vs)
        (labelled (codes "embedding.apiKey") em) (labelled (codes "retriever.apiKey") key)
        (labelled (codes "rateLimit.redisURL") red)
        (oidc_refs (codes "oidc.clientID") (codes "oidc.clientSecret") (codes "oidc.cookieSecret")
          rt.spec.oidc)
        (labelled (codes "generation.apiKey") gen)
        (mentions-labelled secret (codes "vectorStore.credentials") vs)
        (mentions-labelled secret (codes "embedding.apiKey") em)
        (mentions-labelled secret (codes "retriever.apiKey") key)
        (mentions-labelled secret (codes "rateLimit.redisURL") red
          ∙ redis_names_lem secret rt.spec.rate_limit)
        (mentions-oidc_refs secret (codes "oidc.clientID") (codes "oidc.clientSecret")
          (codes "oidc.cookieSecret") rt.spec.oidc)
        (mentions-labelled secret (codes "generation.apiKey") gen
          ∙ generation_names_lem secret rt.spec.generation)
      ∙ reorder_hashed (names_secret secret vs) (names_secret secret em) (names_secret secret key)
          (redis_names secret rt.spec.rate_limit) (oidc_names secret rt.spec.oidc)
          (generation_names secret rt.spec.generation))

referenced-checked_refs :
    (secret : Text) (rt : Retriever) (kb : KnowledgeBase)
    → is_referenced secret rt (some kb) ≡ mentions secret (checked_refs rt kb)
unfolding is_referenced knowledge_base_names checked_refs
referenced-checked_refs secret rt kb =
    let vs = kb.spec.vector_store.credentials_secret_ref in
    let em = kb.spec.embedding.api_key_secret_ref in
    let key = rt.spec.api_key_secret_ref in
    let red = redis_ref rt.spec.rate_limit in
    let gen = generation_ref rt.spec.generation in
    sym (
      six secret (labelled (codes "vector store credentials") vs)
        (labelled (codes "embedding API key") em) (labelled (codes "retriever API key") key)
        (labelled (codes "rate-limit Redis URL") red) (labelled (codes "generation API key") gen)
        (oidc_refs (codes "OIDC client ID") (codes "OIDC client secret")
          (codes "OIDC cookie secret") rt.spec.oidc)
        (mentions-labelled secret (codes "vector store credentials") vs)
        (mentions-labelled secret (codes "embedding API key") em)
        (mentions-labelled secret (codes "retriever API key") key)
        (mentions-labelled secret (codes "rate-limit Redis URL") red
          ∙ redis_names_lem secret rt.spec.rate_limit)
        (mentions-labelled secret (codes "generation API key") gen
          ∙ generation_names_lem secret rt.spec.generation)
        (mentions-oidc_refs secret (codes "OIDC client ID") (codes "OIDC client secret")
          (codes "OIDC cookie secret") rt.spec.oidc)
      ∙ reorder_checked (names_secret secret vs) (names_secret secret em) (names_secret secret key)
          (redis_names secret rt.spec.rate_limit) (generation_names secret rt.spec.generation)
          (oidc_names secret rt.spec.oidc))

-- Where the KnowledgeBases that the Retrievers name can be read, a Secret that changes puts on the
-- queue exactly the Retrievers of its namespace that hash a reference to it, which are those that
-- check one: the watch, computeSecretsHash and validateRetrieverSecrets agree on the references.
pub secret_requests-refs :
    (of : Text → KnowledgeBase) (secret : Text) (rts : List Retriever)
    → let requests = secret_requests (λ name. some (of name)) secret rts in
      (requests
        ≡ select
            (λ rt. mentions secret (hashed_refs rt (of rt.spec.knowledge_base_ref)))
            (λ rt. rt.name)
            rts)
      × (requests
          ≡ select
              (λ rt. mentions secret (checked_refs rt (of rt.spec.knowledge_base_ref)))
              (λ rt. rt.name)
              rts)
unfolding secret_requests
secret_requests-refs of secret rts = (
  select-congr _ _ _ rts (λ rt. referenced-hashed_refs secret rt (of rt.spec.knowledge_base_ref)),
  select-congr _ _ _ rts (λ rt. referenced-checked_refs secret rt (of rt.spec.knowledge_base_ref)),
)
