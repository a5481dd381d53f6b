-- ===== src/Secrets.antt =====
-- internal/controller/secrets.go and computeSecretsHash of decision_helpers.go: what the hash of the
-- credentials is taken of.
pub mod Frame
pub mod Keeps
use kuberag.Prelude.{Text, codes, Option, none, some, List, [], ◌∷◌, ◌++◌}
use kuberag.Platform.{Platform}
use kuberag.Api.KnowledgeBase.{KnowledgeBase, Source, GithubSource, S3Source, SecretKeyRef}
use kuberag.Names.{hex_prefix}
use kuberag.Cluster.{◌>>=◌, ◌>>◌, Server, get_secret, M, pure, get}

-- The bytes that follow the name and key: the value where it is there, and its absence otherwise.
unfoldable pub framed : Option Text → Text
framed (some value) = 1 ∷ (value ++ 0 ∷ [])
framed none = 0 ∷ []

unfoldable pub secret_header : Text → SecretKeyRef → Text
secret_header label ref = label ++ 0 ∷ (ref.name ++ 0 ∷ (ref.key ++ 0 ∷ []))

-- A reference of the spec with its label, in the order of the source.
abbrev pub labelled : Text → Option SecretKeyRef → List (Text × SecretKeyRef)
labelled label none = []
labelled label (some ref) = (label, ref) ∷ []

unfoldable pub github_refs : Text → Option GithubSource → List (Text × SecretKeyRef)
github_refs name none = []
github_refs name (some g) = labelled (codes "source.github." ++ name) g.token_secret_ref

unfoldable pub s3_refs : Text → Option S3Source → List (Text × SecretKeyRef)
s3_refs name none = []
s3_refs name (some b) =
    labelled (codes "source.s3.access." ++ name) b.access_key_secret_ref
    ++ labelled (codes "source.s3.secret." ++ name) b.secret_key_secret_ref

unfoldable pub source_refs : Source → List (Text × SecretKeyRef)
source_refs src = github_refs src.name src.github ++ s3_refs src.name src.s3

unfoldable pub sources_refs : List Source → List (Text × SecretKeyRef)
sources_refs [] = []
sources_refs (x ∷ xs) = source_refs x ++ sources_refs xs

unfoldable pub secret_refs : KnowledgeBase → List (Text × SecretKeyRef)
unfolding source_refs sources_refs
secret_refs kb =
    labelled (codes "vectorStore.credentials") kb.spec.vector_store.credentials_secret_ref
    ++ (labelled (codes "embedding.apiKey") kb.spec.embedding.api_key_secret_ref
        ++ sources_refs kb.spec.sources)

module _ (s : Server) where
  -- A secret that cannot be read counts as one without the key.
  pub read_secret : {S : Type 0} → SecretKeyRef → M S (Option Text)
  read_secret ref w = (
    elim (s.ack w.log (get_secret ref.name)) [
      | some e ↦ none
      | none ↦ s.secret w.log ref.name ref.key
    ],
    record w { log = get_secret ref.name ∷ w.log },
  )

  pub append_secrets : {S : Type 0} → List (Text × SecretKeyRef) → M S Text
  append_secrets [] = pure []
  append_secrets ((label, ref) ∷ rest) = do
    value ← read_secret ref
    more ← append_secrets rest
    pure ((secret_header label ref ++ framed value) ++ more)

  unfoldable pub compute_secrets_hash : Platform → M KnowledgeBase Text
  compute_secrets_hash p = do
    kb ← get
    material ← append_secrets (secret_refs kb)
    pure (hex_prefix p 4 material)
