-- ===== src/Retriever/Secrets.antt =====
-- The Secrets that a Retriever needs: computeSecretsHash and validateRetrieverSecrets. The namespaces
-- of the Retriever and of its KnowledgeBase are the same, since the reference has no namespace.
pub mod Checks
pub mod Success
use kuberag.Prelude.{
  if◌then◌else◌, is_empty, text_eq, Text, codes, Option, none, some, List, [], ◌∷◌, ◌++◌,
}
use kuberag.Platform.{Platform}
use kuberag.Api.KnowledgeBase.{
  KnowledgeBase, SecretKeyRef, Reason, secret_not_found, secret_read_failed, secret_key_not_found,
  secret_key_empty,
}
use kuberag.Api.Retriever.{Retriever, RateLimitSpec, GenerationSpec, OidcSpec}
use kuberag.Names.{hex_prefix}
use kuberag.Cluster.{
  ◌>>=◌, ◌>>◌, Server, M, pure, get_secret, Got, found, refused, is_not_found, answer,
}
use kuberag.Secrets.{labelled, append_secrets}

-- The Redis URL of a rate limit whose backend is "redis".
unfoldable pub redis_ref : Option RateLimitSpec → Option SecretKeyRef
redis_ref none = none
redis_ref (some r) = if text_eq r.backend (codes "redis") then r.redis_url_secret_ref else none

unfoldable pub generation_ref : Option GenerationSpec → Option SecretKeyRef
generation_ref none = none
generation_ref (some g) = g.api_key_secret_ref

unfoldable pub oidc_refs : Text → Text → Text → Option OidcSpec → List (Text × SecretKeyRef)
oidc_refs client secret cookie none = []
oidc_refs client secret cookie (some o) =
    (client, o.client_id_secret_ref)
    ∷ (secret, o.client_secret_secret_ref)
    ∷ (cookie, o.cookie_secret_ref)
    ∷ []

-- The references that computeSecretsHash hashes, in its order.
unfoldable pub hashed_refs : Retriever → KnowledgeBase → List (Text × SecretKeyRef)
hashed_refs rt kb =
    labelled (codes "vectorStore.credentials") kb.spec.vector_store.credentials_secret_ref
    ++ (labelled (codes "embedding.apiKey") kb.spec.embedding.api_key_secret_ref
        ++ (labelled (codes "retriever.apiKey") rt.spec.api_key_secret_ref
            ++ (labelled (codes "rateLimit.redisURL") (redis_ref rt.spec.rate_limit)
                ++ (oidc_refs (codes "oidc.clientID") (codes "oidc.clientSecret")
                      (codes "oidc.cookieSecret") rt.spec.oidc
                    ++ labelled (codes "generation.apiKey") (generation_ref rt.spec.generation)))))

-- The references that validateRetrieverSecrets checks, in its order, less those that are nil.
unfoldable pub checked_refs : Retriever → KnowledgeBase → List (Text × SecretKeyRef)
checked_refs rt kb =
    labelled (codes "vector store credentials") kb.spec.vector_store.credentials_secret_ref
    ++ (labelled (codes "embedding API key") kb.spec.embedding.api_key_secret_ref
        ++ (labelled (codes "retriever API key") rt.spec.api_key_secret_ref
            ++ (labelled (codes "rate-limit Redis URL") (redis_ref rt.spec.rate_limit)
                ++ (labelled (codes "generation API key") (generation_ref rt.spec.generation)
                    ++ oidc_refs (codes "OIDC client ID") (codes "OIDC client secret")
                        (codes "OIDC cookie secret") rt.spec.oidc))))

-- What is wrong with a Secret that was read, under a key.
unfoldable pub data_fault : Option Text → Option Reason
data_fault none = some secret_key_not_found
data_fault (some bytes) = if is_empty bytes then some secret_key_empty else none

unfoldable pub secret_fault : Got (Option Text) → Option Reason
unfolding data_fault
secret_fault (refused e) = some (if is_not_found e then secret_not_found else secret_read_failed)
secret_fault (found bytes) = data_fault bytes

module _ (s : Server) where
  unfoldable pub fetch_secret : {S : Type 0} → SecretKeyRef → M S (Got (Option Text))
  fetch_secret ref w = (
    answer s (s.ack w.log (get_secret ref.name)) (s.secret w.log ref.name ref.key),
    record w { log = get_secret ref.name ∷ w.log },
  )

  unfoldable pub stop_at : {S : Type 0} → Option Reason → M S (Option Reason) → M S (Option Reason)
  stop_at (some reason) rest = pure (some reason)
  stop_at none rest = rest

  -- The loop over the references: the reason of the first that fails.
  unfoldable pub validate_refs : {S : Type 0} → List (Text × SecretKeyRef) → M S (Option Reason)
  validate_refs [] = pure none
  validate_refs ((label, ref) ∷ rest) = do
    got ← fetch_secret ref
    stop_at (secret_fault got) (validate_refs rest)

  unfoldable pub validate_retriever_secrets :
      Retriever → KnowledgeBase → M Retriever (Option Reason)
  validate_retriever_secrets rt kb = validate_refs (checked_refs rt kb)

  unfoldable pub retriever_secrets_hash : Platform → Retriever → KnowledgeBase → M Retriever Text
  retriever_secrets_hash p rt kb = do
    material ← append_secrets s (hashed_refs rt kb)
    pure (hex_prefix p 4 material)
