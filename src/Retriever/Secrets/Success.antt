-- ===== src/Retriever/Secrets/Success.antt =====
-- The validation of the Secrets against a server that refuses nothing.
use kuberag.Prelude.{is_empty, Text, ◌≡◌, refl, false, Option, none, some, List, [], ◌∷◌, arith}
use kuberag.Api.KnowledgeBase.{SecretKeyRef, Reason}
use kuberag.Api.Retriever.{Retriever}
use kuberag.Cluster.{Server, History, Pass, M, Call, answer, ApiError, get_secret}
use kuberag.Retriever.Secrets.{stop_at, secret_fault, data_fault, fetch_secret, validate_refs}

module _ (s : Server) where
  -- The Secret has a value that is not empty under the key, whenever it is read.
  abbrev pub Filled : SecretKeyRef → Type 0
  Filled ref =
      (h : History)
      → (bytes : Text) × (s.secret h ref.name ref.key ≡ some bytes) × (is_empty bytes ≡ false)

  abbrev pub AllFilled : List (Text × SecretKeyRef) → Type 0
  AllFilled [] = Unit
  AllFilled ((label, ref) ∷ rest) = Filled ref × AllFilled rest

module _ (s : Server) (taking : (h : History) (c : Call) → s.ack h c ≡ none) where
  no_fault :
      (e : Option ApiError) (o : Option Text) (bytes : Text)
      → e ≡ none
      → o ≡ some bytes
      → is_empty bytes ≡ false
      → secret_fault (answer s e o) ≡ none
  unfolding secret_fault data_fault
  no_fault none (some (c ∷ t)) bytes h k f = refl
  no_fault none (some []) bytes h k f = ground arith
  no_fault none none bytes h k f = cc
  no_fault (some e) o bytes h k f = cc

  goes_on :
      (fault : Option Reason) (rest : M Retriever (Option Reason)) (w : Pass Retriever)
      → fault ≡ none
      → (rest w).0 ≡ none
      → (stop_at s fault rest w).0 ≡ none
  unfolding stop_at
  goes_on none rest w h k = k
  goes_on (some r) rest w h k = cc

  pub validate_refs-Succeeds :
      (refs : List (Text × SecretKeyRef)) (w : Pass Retriever)
      → AllFilled s refs
      → (validate_refs s refs w).0 ≡ none
  unfolding validate_refs fetch_secret
  validate_refs-Succeeds [] w f = refl
  validate_refs-Succeeds ((label, ref) ∷ rest) w f =
      let (bytes, held, filled) = f.0 w.log in
      goes_on _ _ _ (no_fault _ _ bytes (taking w.log (get_secret ref.name)) held filled)
        (validate_refs-Succeeds rest _ f.1)
