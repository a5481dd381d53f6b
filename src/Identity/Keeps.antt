-- ===== src/Identity/Keeps.antt =====
-- What the calls of worker_identity.go keep.
use kuberag.Prelude.{Bool-cases, is_empty, Text, ◌≡◌, refl, inl, inr, Option, List, [], ◌∷◌, arith}
use kuberag.Platform.{Platform}
use kuberag.Names.{result_config_map_name, checkpoint_config_map_name}
use kuberag.Api.KnowledgeBase.{KnowledgeBase}
use kuberag.Cluster.{
  Server, ApiError, M, Pass, call, attempt, get_role_binding, create_role_binding, get_role,
  create_role, update_role, update_role_binding, get_service_account, create_service_account,
  update_service_account, Call, set_controller_reference, create_config_map,
}
use kuberag.History.{creation}
use kuberag.History.Keeps.{Keeps, IsCalled}
use kuberag.Identity.{
  clear_worker_config_map_access, ensure_worker_identity, validate_custom_worker_service_account,
  ◌before◌, apply, apply_worker_role, worker_service_account_name, prepare_worker_job, create_owned,
}
use kuberag.Identity.Names.{resource_names}

module _ (s : Server) (Q : Pass KnowledgeBase → Type 0) (st : IsCalled Q) where
  call-Keeps : (c : Call) → creation c ≡ 0 → Keeps Q (call s c)
  unfolding call
  call-Keeps c plain w q = st.called c w.object w.log plain q

  -- A step that may fail, and the rest behind it where it does not.
  before-Keeps :
      (m rest : M KnowledgeBase (Option ApiError))
      → Keeps Q m
      → Keeps Q rest
      → Keeps Q (m before rest)
  unfolding ◌before◌
  before-Keeps m rest km kr w q =
      let first = km w q in let second = kr (m w).1 first in ground arith

  apply-Keeps :
      (a b c : Call) → creation a ≡ 0 → creation b ≡ 0 → creation c ≡ 0 → Keeps Q (apply s a b c)
  unfolding apply call
  apply-Keeps a b c pa pb pc w q =
      let read = st.called a w.object w.log pa q in
      let created = st.called b w.object _ pb read in
      let updated = st.called c w.object _ pc read in ground arith

  apply_worker_role-Keeps : (name : Text) (cs : List Text) → Keeps Q (apply_worker_role s name cs)
  unfolding apply_worker_role call
  apply_worker_role-Keeps name [] w q =
      let read = st.called (get_role name) w.object w.log refl q in
      let created = st.called (create_role name []) w.object _ refl read in ground arith
  apply_worker_role-Keeps name (c ∷ cs) w q = apply-Keeps _ _ _ refl refl refl w q

  pub ensure_worker_identity-Keeps :
      (p : Platform) (allowed : List Text) → Keeps Q (ensure_worker_identity s p allowed)
  unfolding ensure_worker_identity
  ensure_worker_identity-Keeps p allowed w q =
      let name = worker_service_account_name p w.object in
      let owned = call-Keeps (set_controller_reference name) refl in
      let account =
        apply-Keeps (get_service_account name) (create_service_account name)
          (update_service_account name) refl refl refl in
      let role = apply_worker_role-Keeps name (resource_names allowed) in
      let binding =
        apply-Keeps (get_role_binding name) (create_role_binding name) (update_role_binding name)
          refl refl refl in
      elim (Bool-cases (is_empty w.object.spec.ingestion.service_account_name)) [
        | inr custom ↦ rw (custom, ensure_worker_identity) q
        | inl own ↦
            rw (own, ensure_worker_identity)
              (before-Keeps _ _ owned
                (before-Keeps _ _ account
                  (before-Keeps _ _ owned (before-Keeps _ _ role (before-Keeps _ _ owned binding))))
                w q)
      ]

  create_owned-Keeps : (name : Text) → Keeps Q (create_owned s name)
  unfolding create_owned call
  create_owned-Keeps name w q =
      let owned = st.called (set_controller_reference name) w.object w.log refl q in
      let created = st.called (create_config_map name) w.object _ refl owned in ground arith

  pub prepare_worker_job-Keeps :
      (p : Platform) (job : Text) (additional : List Text)
      → Keeps Q (prepare_worker_job s p job additional)
  unfolding prepare_worker_job
  prepare_worker_job-Keeps p job additional =
      before-Keeps _ _ (create_owned-Keeps (result_config_map_name p job)) (
        before-Keeps _ _ (create_owned-Keeps (checkpoint_config_map_name p job))
          (ensure_worker_identity-Keeps p _))

  pub clear-Keeps : (p : Platform) → Keeps Q (clear_worker_config_map_access s p)
  unfolding clear_worker_config_map_access attempt
  clear-Keeps p w q =
      let name = worker_service_account_name p w.object in
      let read = st.called (get_role name) w.object w.log refl q in
      let updated = st.called (update_role name []) w.object _ refl read in ground arith

  pub validate-Keeps : Keeps Q (validate_custom_worker_service_account s)
  unfolding validate_custom_worker_service_account call
  validate-Keeps w q =
      let read =
        st.called (get_service_account w.object.spec.ingestion.service_account_name) w.object w.log
          refl q in
      ground arith
