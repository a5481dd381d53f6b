-- ===== src/Secrets/Frame/Tests.antt =====
-- Two readings of one credential.
use kuberag.Prelude.{Text, codes, ◌*◌, ◌≡◌, refl, List, [], ◌∷◌, arith}
use kuberag.Api.KnowledgeBase.{SecretKeyRef}
use kuberag.Cluster.{Server, second}
use kuberag.Secrets.{append_secrets, read_secret}
use kuberag.Secrets.Frame.{PlainValues, read_values, append_secrets-injective}
use kuberag.Fixtures.{server, pass, github_token}

-- The same credentials, at a later time.
abbrev later : Server
later = record server { now = λ h. 500 * second }

abbrev refs : List (Text × SecretKeyRef)
refs = (codes "github", github_token) ∷ []

now_plain : PlainValues (read_values server refs pass)
unfolding read_values read_secret
now_plain = grind arith

later_plain : PlainValues (read_values later refs pass)
unfolding read_values read_secret
later_plain = grind arith

same_bytes : (append_secrets server refs pass).0 ≡ (append_secrets later refs pass).0
unfolding append_secrets read_secret
same_bytes = refl

append_secrets-injective_example : read_values server refs pass ≡ read_values later refs pass
append_secrets-injective_example =
    append_secrets-injective server later refs pass pass now_plain later_plain same_bytes
