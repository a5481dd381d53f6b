-- ===== src/Watches/Complete.antt =====
-- The watch on Secrets against the references whose values the operator hashes.
use kuberag.Prelude.{
  text_eq, Text, ◌≡◌, refl, sym, ◌∙◌, Bool, false, ◌||◌, Option, none, some, List, [], ◌∷◌, ◌++◌,
  arith,
}
use mathlib.Core.Path.{ap₂}
use kuberag.Api.KnowledgeBase.{KnowledgeBase, Source, GithubSource, S3Source, SecretKeyRef}
use kuberag.Secrets.{labelled, github_refs, s3_refs, source_refs, sources_refs, secret_refs}
use kuberag.Watches.{
  select, names_secret, github_names, s3_names, source_names, is_referenced, secret_requests,
}

-- Some reference of the list is to the Secret.
unfoldable pub mentions : Text → List (Text × SecretKeyRef) → Bool
mentions secret [] = false
mentions secret ((label, ref) ∷ rest) = text_eq ref.name secret || mentions secret rest

pub mentions-append :
    (secret : Text) (xs ys : List (Text × SecretKeyRef))
    → mentions secret (xs ++ ys) ≡ mentions secret xs || mentions secret ys
unfolding mentions
mentions-append secret [] ys = refl
mentions-append secret ((label, ref) ∷ xs) ys = ground (arith, mentions-append secret xs ys)

pub mentions-labelled :
    (secret label : Text) (o : Option SecretKeyRef)
    → mentions secret (labelled label o) ≡ names_secret secret o
unfolding mentions names_secret
mentions-labelled secret label none = refl
mentions-labelled secret label (some ref) = ground arith

pub select-congr {ℓ} :
    {A : Type ℓ} (f g : A → Bool) (name : A → Text) (xs : List A)
    → ((x : A) → f x ≡ g x)
    → select f name xs ≡ select g name xs
unfolding select
select-congr f g name [] h = refl
select-congr f g name (x ∷ xs) h = rw (h x, select-congr f g name xs h) refl

mentions-github_refs :
    (secret name : Text) (o : Option GithubSource)
    → mentions secret (github_refs name o) ≡ github_names secret o
unfolding mentions github_refs github_names
mentions-github_refs secret name none = refl
mentions-github_refs secret name (some g) = mentions-labelled secret _ g.token_secret_ref

mentions-s3_refs :
    (secret name : Text) (o : Option S3Source)
    → mentions secret (s3_refs name o) ≡ s3_names secret o
unfolding mentions s3_refs s3_names
mentions-s3_refs secret name none = refl
mentions-s3_refs secret name (some b) =
    mentions-append secret _ _
    ∙ ap₂ ◌||◌ (mentions-labelled secret _ b.access_key_secret_ref)
        (mentions-labelled secret _ b.secret_key_secret_ref)

mentions-sources_refs :
    (secret : Text) (srcs : List Source)
    → mentions secret (sources_refs srcs) ≡ source_names secret srcs
unfolding mentions sources_refs source_refs source_names
mentions-sources_refs secret [] = refl
mentions-sources_refs secret (x ∷ xs) =
    mentions-append secret _ (sources_refs xs)
    ∙ ap₂ ◌||◌
        (mentions-append secret _ _
          ∙ ap₂ ◌||◌ (mentions-github_refs secret x.name x.github)
              (mentions-s3_refs secret x.name x.s3))
        (mentions-sources_refs secret xs)

mentions-secret_refs :
    (secret : Text) (kb : KnowledgeBase)
    → is_referenced secret kb ≡ mentions secret (secret_refs kb)
unfolding secret_refs is_referenced
mentions-secret_refs secret kb = sym (
    mentions-append secret _ _
    ∙ ap₂ ◌||◌ (mentions-labelled secret _ kb.spec.vector_store.credentials_secret_ref) (
        mentions-append secret _ _
        ∙ ap₂ ◌||◌ (mentions-labelled secret _ kb.spec.embedding.api_key_secret_ref)
            (mentions-sources_refs secret kb.spec.sources)))

-- A Secret that changes puts on the queue exactly the KnowledgeBases of its namespace that hash a
-- reference to it: the watch and computeSecretsHash agree on the references.
pub secret_requests-secret_refs :
    (secret : Text) (kbs : List KnowledgeBase)
    → secret_requests secret kbs
      ≡ select (λ kb. mentions secret (secret_refs kb)) (λ kb. kb.name) kbs
unfolding secret_requests
secret_requests-secret_refs secret kbs = select-congr _ _ _ kbs (mentions-secret_refs secret)
