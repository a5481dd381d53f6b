-- ===== src/Secrets/Keeps.antt =====
-- What the reads of Secrets keep.
use kuberag.Prelude.{Text, refl, List, [], ◌∷◌}
use kuberag.Platform.{Platform}
use kuberag.Api.KnowledgeBase.{KnowledgeBase, SecretKeyRef}
use kuberag.Cluster.{Server, Pass, get_secret}
use kuberag.History.Keeps.{Keeps, IsSteady}
use kuberag.Secrets.{append_secrets, read_secret, compute_secrets_hash}

module _ (s : Server) (Q : Pass KnowledgeBase → Type 0) (st : IsSteady Q) where
  append_secrets-Keeps : (refs : List (Text × SecretKeyRef)) → Keeps Q (append_secrets s refs)
  unfolding append_secrets read_secret
  append_secrets-Keeps [] w q = q
  append_secrets-Keeps ((label, ref) ∷ rest) w q =
      append_secrets-Keeps rest _ (st.called (get_secret ref.name) w.object w.log refl q)

  pub compute_secrets_hash-Keeps : (p : Platform) → Keeps Q (compute_secrets_hash s p)
  unfolding compute_secrets_hash
  compute_secrets_hash-Keeps p w q = append_secrets-Keeps _ w q
