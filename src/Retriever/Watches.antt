-- ===== src/Retriever/Watches.antt =====
-- The watches of SetupWithManager in retriever_controller.go: which Retrievers of a namespace a
-- KnowledgeBase or a Secret that changes puts on the queue. The listing that fails, which puts none
-- there, is the empty list.
pub mod Complete
use kuberag.Prelude.{text_eq, Text, codes, Bool, false, ◌&&◌, ◌||◌, Option, none, some, List}
use kuberag.Api.KnowledgeBase.{KnowledgeBase}
use kuberag.Watches.{select, names_secret}
use kuberag.Api.Retriever.{Retriever, RateLimitSpec, GenerationSpec, OidcSpec}

unfoldable pub knowledge_base_requests : Text → List Retriever → List Text
knowledge_base_requests kb = select (λ rt. text_eq rt.spec.knowledge_base_ref kb) (λ rt. rt.name)

unfoldable pub redis_names : Text → Option RateLimitSpec → Bool
redis_names secret none = false
redis_names secret (some r) =
    text_eq r.backend (codes "redis") && names_secret secret r.redis_url_secret_ref

unfoldable pub generation_names : Text → Option GenerationSpec → Bool
generation_names secret none = false
generation_names secret (some g) = names_secret secret g.api_key_secret_ref

unfoldable pub oidc_names : Text → Option OidcSpec → Bool
oidc_names secret none = false
oidc_names secret (some o) =
    text_eq o.client_id_secret_ref.name secret
    || (text_eq o.client_secret_secret_ref.name secret || text_eq o.cookie_secret_ref.name secret)

-- The KnowledgeBase that the Retriever names, where it can be read.
unfoldable pub knowledge_base_names : Text → Option KnowledgeBase → Bool
knowledge_base_names secret none = false
knowledge_base_names secret (some kb) =
    names_secret secret kb.spec.vector_store.credentials_secret_ref
    || names_secret secret kb.spec.embedding.api_key_secret_ref

-- The variable `referenced` at the end of one round.
unfoldable pub is_referenced : Text → Retriever → Option KnowledgeBase → Bool
is_referenced secret rt kb =
    names_secret secret rt.spec.api_key_secret_ref
    || (redis_names secret rt.spec.rate_limit
        || (generation_names secret rt.spec.generation
            || (oidc_names secret rt.spec.oidc || knowledge_base_names secret kb)))

unfoldable pub secret_requests : (Text → Option KnowledgeBase) → Text → List Retriever → List Text
secret_requests read secret =
    select (λ rt. is_referenced secret rt (read rt.spec.knowledge_base_ref)) (λ rt. rt.name)
