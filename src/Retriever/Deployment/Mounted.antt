-- ===== src/Retriever/Deployment/Mounted.antt =====
-- The Secrets whose values the containers of a Retriever get.
use kuberag.Prelude.{
  if◌then◌else◌, text_eq, Text, codes, ◌≡◌, refl, Bool, true, false, not, Option, none, some, List,
  [], ◌∷◌, ◌++◌, arith,
}
use kuberag.Api.KnowledgeBase.{KnowledgeBase, SecretKeyRef}
use kuberag.Api.Jobs.{EnvVar, EnvValue, value, from_secret}
use kuberag.Api.Retriever.{Retriever, RateLimitSpec, GenerationSpec}
use kuberag.Jobs.{secret_env, optional_env}
use kuberag.Pods.{plain, scratch_env}
use kuberag.Retriever.{value_or}
use kuberag.Retriever.Secrets.{redis_ref, generation_ref}
use kuberag.Retriever.Environment.{
  text_or, query_embedding, base_env, rerank_env, rate_limit_env, auth_env, generation_env,
  retriever_env,
}

module _ (P : SecretKeyRef → Type 0) where
  abbrev pub Allowed : EnvValue → Type 0
  Allowed (value text) = Unit
  Allowed (from_secret ref) = P ref

  -- Every variable has a text of its own, or the value of a Secret of which `P` holds.
  abbrev pub AllAllowed : List EnvVar → Type 0
  AllAllowed [] = Unit
  AllAllowed (v ∷ env) = Allowed v.value × AllAllowed env

  AllAllowed-append : (xs ys : List EnvVar) → AllAllowed xs → AllAllowed ys → AllAllowed (xs ++ ys)
  AllAllowed-append [] ys hx hy = hy
  AllAllowed-append (x ∷ xs) ys hx hy = (hx.0, AllAllowed-append xs ys hx.1 hy)

  optional_env-Allowed :
      (name : Text) (o : Option SecretKeyRef)
      → ((ref : SecretKeyRef) → o ≡ some ref → P ref)
      → AllAllowed (optional_env name o)
  unfolding optional_env secret_env
  optional_env-Allowed name none h = tt
  optional_env-Allowed name (some ref) h = (h ref refl, tt)

  auth_env-Allowed :
      (o : Option SecretKeyRef)
      → ((ref : SecretKeyRef) → o ≡ some ref → P ref)
      → AllAllowed (auth_env o)
  unfolding auth_env secret_env
  auth_env-Allowed none h = tt
  auth_env-Allowed (some ref) h = (tt, (h ref refl, tt))

  base_env-Allowed : (rt : Retriever) (kb : KnowledgeBase) → AllAllowed (base_env rt kb)
  unfolding base_env rerank_env
  base_env-Allowed rt kb = ground arith

  unless-Allowed :
      (b : Bool) (env : List EnvVar) → AllAllowed env → AllAllowed (if b then [] else env)
  unless-Allowed true env h = tt
  unless-Allowed false env h = h

  generation_env-Allowed :
      (o : Option GenerationSpec)
      → ((ref : SecretKeyRef) → generation_ref o ≡ some ref → P ref)
      → AllAllowed (generation_env o)
  unfolding generation_env generation_ref
  generation_env-Allowed none h = tt
  generation_env-Allowed (some g) h =
      let key = optional_env-Allowed (codes "GEN_API_KEY") g.api_key_secret_ref h in
      unless-Allowed (not (value_or g.enabled true)) _ (tt, (tt, (tt, (tt, (tt, (tt, key))))))

  -- An empty backend is "local", and so is not "redis".
  backend_lem :
      (t : Text) → text_eq (text_or t (codes "local")) (codes "redis") ≡ text_eq t (codes "redis")
  unfolding text_eq
  backend_lem [] = refl
  backend_lem (c ∷ t) = refl

  redis-Allowed :
      (b b' : Bool) (name : Text) (o : Option SecretKeyRef)
      → b' ≡ b
      → ((ref : SecretKeyRef) → (if b then o else none) ≡ some ref → P ref)
      → AllAllowed (if b' then optional_env name o else [])
  redis-Allowed true true name o e h = optional_env-Allowed name o h
  redis-Allowed false false name o e h = tt
  redis-Allowed true false name o e h = tt
  redis-Allowed false true name o e h = cc

  rate_limit_env-Allowed :
      (o : Option RateLimitSpec)
      → ((ref : SecretKeyRef) → redis_ref o ≡ some ref → P ref)
      → AllAllowed (rate_limit_env o)
  unfolding rate_limit_env redis_ref
  rate_limit_env-Allowed none h = tt
  rate_limit_env-Allowed (some r) h =
      let url =
        redis-Allowed (text_eq r.backend (codes "redis")) _ (codes "RATE_LIMIT_REDIS_URL")
          r.redis_url_secret_ref (backend_lem r.backend) h in
      unless-Allowed (not (value_or r.enabled true)) _ (tt, (tt, (tt, (tt, (tt, (tt, url))))))

  pub retriever_env-Allowed :
      (rt : Retriever) (kb : KnowledgeBase)
      → ((ref : SecretKeyRef) → kb.spec.vector_store.credentials_secret_ref ≡ some ref → P ref)
      → ((ref : SecretKeyRef) → (query_embedding kb).api_key_secret_ref ≡ some ref → P ref)
      → ((ref : SecretKeyRef) → rt.spec.api_key_secret_ref ≡ some ref → P ref)
      → ((ref : SecretKeyRef) → redis_ref rt.spec.rate_limit ≡ some ref → P ref)
      → ((ref : SecretKeyRef) → generation_ref rt.spec.generation ≡ some ref → P ref)
      → AllAllowed (retriever_env rt kb)
  unfolding retriever_env scratch_env
  retriever_env-Allowed rt kb store embedding key redis generation =
      let plain_rest : AllAllowed (
          scratch_env
          ++ plain (codes "DISABLE_PLAYGROUND_INGEST") (codes "true")
            ∷ plain (codes "METRICS_ENABLED") (codes "true")
            ∷ plain (codes "METRICS_PORT") (codes "9090")
            ∷ []) =
        (tt, (tt, (tt, (tt, (tt, (tt, (tt, (tt, (tt, tt))))))))) in
      AllAllowed-append (base_env rt kb) _ (base_env-Allowed rt kb) (
        AllAllowed-append (rate_limit_env rt.spec.rate_limit) _
          (rate_limit_env-Allowed rt.spec.rate_limit redis)
          (AllAllowed-append (optional_env _ _) _ (optional_env-Allowed _ _ store) (
            AllAllowed-append (optional_env _ _) _ (optional_env-Allowed _ _ embedding) (
              AllAllowed-append (auth_env _) _ (auth_env-Allowed _ key) (
                AllAllowed-append (generation_env _) _
                  (generation_env-Allowed rt.spec.generation generation) plain_rest)))))
