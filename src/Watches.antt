-- ===== src/Watches.antt =====
-- The watches of SetupWithManager in internal/controller/knowledgebase_controller.go: the index of
-- Jobs by their owner, and which KnowledgeBases of a namespace a ServiceAccount or a Secret that
-- changes puts on the queue. A listing that fails, which puts none there, is the empty list.
pub mod Complete
use kuberag.Prelude.{
  if◌then◌else◌, text_eq, Text, codes, Bool, false, ◌||◌, Option, none, some, List, [], ◌∷◌,
}
use kuberag.Api.KnowledgeBase.{KnowledgeBase, Source, GithubSource, S3Source, SecretKeyRef}

-- The requests that a `range` over the listed objects collects: the names of those that pass a test.
unfoldable pub select {ℓ} : {A : Type ℓ} → (A → Bool) → (A → Text) → List A → List Text
select test name [] = []
select test name (x ∷ xs) = let rest = select test name xs in if test x then name x ∷ rest else rest

-- The keys of a Job in the index, from the kind and name of its controller.
unfoldable pub owner_keys : Option (Text × Text) → List Text
owner_keys none = []
owner_keys (some (kind, name)) = if text_eq kind (codes "KnowledgeBase") then name ∷ [] else []

unfoldable pub service_account_requests : Text → List KnowledgeBase → List Text
service_account_requests account =
    select (λ kb. text_eq kb.spec.ingestion.service_account_name account) (λ kb. kb.name)

-- `ref != nil && ref.Name == secret.Name`
unfoldable pub names_secret : Text → Option SecretKeyRef → Bool
names_secret secret none = false
names_secret secret (some ref) = text_eq ref.name secret

unfoldable pub github_names : Text → Option GithubSource → Bool
github_names secret none = false
github_names secret (some g) = names_secret secret g.token_secret_ref

unfoldable pub s3_names : Text → Option S3Source → Bool
s3_names secret none = false
s3_names secret (some b) =
    names_secret secret b.access_key_secret_ref || names_secret secret b.secret_key_secret_ref

unfoldable pub source_names : Text → List Source → Bool
source_names secret [] = false
source_names secret (x ∷ xs) =
    (github_names secret x.github || s3_names secret x.s3) || source_names secret xs

-- The variable `referenced` at the end of one round.
unfoldable pub is_referenced : Text → KnowledgeBase → Bool
is_referenced secret kb =
    names_secret secret kb.spec.vector_store.credentials_secret_ref
    || (names_secret secret kb.spec.embedding.api_key_secret_ref
        || source_names secret kb.spec.sources)

unfoldable pub secret_requests : Text → List KnowledgeBase → List Text
secret_requests secret = select (is_referenced secret) (λ kb. kb.name)
