-- ===== src/Status/Success.antt =====
-- The write of a status by a server that refuses nothing, and by one that refuses it.
use kuberag.Prelude.{ℕ, zero, suc, ◌≡◌, refl, none, some, ◌∷◌, arith}
use kuberag.Api.KnowledgeBase.{KnowledgeBase, KnowledgeBaseStatus}
use kuberag.Cluster.{
  Server, ApiError, History, Call, Pass, call, Outcome, get_knowledge_base, update_status,
}
use kuberag.History.{Accepted, Takes}
use kuberag.Status.{put_status, retry_on_conflict, status_update, update_and_return, is_conflict}
use kuberag.Status.Saving.{status_update-Saves}

module _ (s : Server) (taking : (h : History) (c : Call) → s.ack h c ≡ none) where
  retry-succeeds :
      (n : ℕ) (st : KnowledgeBaseStatus) (w : Pass KnowledgeBase)
      → (retry_on_conflict s n (put_status s st) w).0 ≡ none
  unfolding retry_on_conflict put_status call is_conflict
  retry-succeeds zero st w = ground (
    arith,
    taking w.log get_knowledge_base,
    taking (get_knowledge_base ∷ w.log) (update_status st),
  )
  retry-succeeds (suc n) st w = ground (
    arith,
    taking w.log get_knowledge_base,
    taking (get_knowledge_base ∷ w.log) (update_status st),
  )

  pub status_update-succeeds : (w : Pass KnowledgeBase) → (status_update s w).0 ≡ none
  unfolding status_update
  status_update-succeeds w = retry-succeeds s.retry_steps w.object.status w

  -- A step ends with the result given, the object as it is, and its status stored.
  pub record Stores (out : Outcome) (w : Pass KnowledgeBase) (end : Outcome × Pass KnowledgeBase)
      : Type 0 where
    pub result : end.0 ≡ out
    pub same_object : end.1.object ≡ w.object
    pub stored : Accepted s (update_status w.object.status) end.1.log

  pub update_and_return-Stores :
      (out : Outcome) (w : Pass KnowledgeBase) → Stores out w (update_and_return s out w)
  unfolding update_and_return
  update_and_return-Stores out w =
      let good = status_update-succeeds w in
      let law = status_update-Saves s w in
      rw (good, update_and_return)
        (record { result = refl; same_object = law.quiet.same_object; stored = law.stored good })

-- Against a server that refuses every status, for one reason.
module _ (s : Server) (takes : Takes s) (e : ApiError)
    (refuses : (h : History) (st : KnowledgeBaseStatus) → s.ack h (update_status st) ≡ some e) where
  put_status-refused :
      (st : KnowledgeBaseStatus) (w : Pass KnowledgeBase) → (put_status s st w).0 ≡ some e
  unfolding put_status call
  put_status-refused st w =
      rw (takes w.log get_knowledge_base refl) (refuses (get_knowledge_base ∷ w.log) st)

  retry-refused :
      (n : ℕ) (st : KnowledgeBaseStatus) (w : Pass KnowledgeBase)
      → (retry_on_conflict s n (put_status s st) w).0 ≡ some e
  unfolding retry_on_conflict
  retry-refused zero st w = put_status-refused st w
  retry-refused (suc n) st w =
      ground (arith, put_status-refused st w, retry-refused n st (put_status s st w).1)

  pub update_and_return-refused :
      (out : Outcome) (w : Pass KnowledgeBase)
      → update_and_return s out w ≡ (Outcome.failed e, (status_update s w).1)
  unfolding update_and_return status_update
  update_and_return-refused out w =
      rw (retry-refused s.retry_steps w.object.status w, update_and_return) refl
