-- ===== src/Status/Keeps.antt =====
-- What the writes of a status keep.
use kuberag.Prelude.{ℕ, zero, suc, refl, true, false, Option, arith}
use kuberag.Platform.{Platform}
use kuberag.Api.KnowledgeBase.{
  KnowledgeBase, KnowledgeBaseStatus, ready_condition, resource_quota_exceeded,
}
use kuberag.Cluster.{
  Server, ApiError, M, Pass, call, attempt, Outcome, event, get_knowledge_base, update_status,
}
use kuberag.History.Keeps.{Keeps, IsSteady}
use kuberag.Status.{
  put_status, retry_on_conflict, status_update, update_and_return, report_quota, quota_or_fail,
  set_condition,
}

module _ (s : Server) (Q : Pass KnowledgeBase → Type 0) (st : IsSteady Q) where
  put_status-Keeps : (desired : KnowledgeBaseStatus) → Keeps Q (put_status s desired)
  unfolding put_status call
  put_status-Keeps desired w q =
      let read = st.called get_knowledge_base w.object w.log refl q in
      let wrote = st.called (update_status desired) w.object _ refl read in ground arith

  retry-Keeps :
      (n : ℕ) (m : M KnowledgeBase (Option ApiError))
      → Keeps Q m
      → Keeps Q (retry_on_conflict s n m)
  unfolding retry_on_conflict
  retry-Keeps zero m k w q = k w q
  retry-Keeps (suc n) m k w q =
      let once = k w q in let again = retry-Keeps n m k (m w).1 once in ground arith

  pub status_update-Keeps : Keeps Q (status_update s)
  unfolding status_update
  status_update-Keeps w q = retry-Keeps s.retry_steps _ (put_status-Keeps w.object.status) w q

  pub update_and_return-Keeps : (out : Outcome) → Keeps Q (update_and_return s out)
  unfolding update_and_return
  update_and_return-Keeps out w q = let kept = status_update-Keeps w q in ground arith

  pub quota_or_fail-Keeps : (p : Platform) (e : ApiError) → Keeps Q (quota_or_fail s p e)
  unfolding quota_or_fail report_quota attempt set_condition
  quota_or_fail-Keeps p e w q =
      let kept = status_update-Keeps _ (
        st.changed w.object (set_condition p ready_condition false resource_quota_exceeded w.object)
          w.log refl q) in
      let told = st.called (event true resource_quota_exceeded) _ _ refl kept in ground arith
