-- ===== src/Identity/Success.antt =====
-- The calls of worker_identity.go against a server that takes all ordinary calls.
use kuberag.Prelude.{
  Bool-cases, is_empty, Text, ◌≡◌, refl, inl, inr, true, Option, none, List, [], ◌∷◌, arith,
}
use kuberag.Platform.{Platform}
use kuberag.Names.{result_config_map_name, checkpoint_config_map_name}
use kuberag.Api.KnowledgeBase.{KnowledgeBase}
use kuberag.Cluster.{
  Server, ApiError, Call, M, Pass, call, get_role, get_service_account, set_controller_reference,
  ignore_already_exists, create_config_map, get_role_binding, create_role_binding,
  update_role_binding, create_service_account, update_service_account,
}
use kuberag.History.{is_ordinary, Takes}
use kuberag.Identity.{
  ensure_worker_identity, validate_custom_worker_service_account, ◌before◌, apply,
  apply_worker_role, worker_service_account_name, prepare_worker_job, create_owned,
}
use kuberag.Identity.Names.{resource_names}

-- A step that reports no error, from wherever it starts.
abbrev pub Succeeds : M KnowledgeBase (Option ApiError) → Type 0
Succeeds m = (w : Pass KnowledgeBase) → (m w).0 ≡ none

module _ (s : Server) (takes : Takes s) where
  call-Succeeds : (c : Call) → is_ordinary c ≡ true → Succeeds (call s c)
  unfolding call
  call-Succeeds c plain w = takes w.log c plain

  before-Succeeds :
      (m rest : M KnowledgeBase (Option ApiError))
      → Succeeds m
      → Succeeds rest
      → Succeeds (m before rest)
  unfolding ◌before◌
  before-Succeeds m rest a b w = ground (arith, a w, b (m w).1)

  apply-Succeeds :
      (a b c : Call) → is_ordinary a ≡ true → is_ordinary c ≡ true → Succeeds (apply s a b c)
  unfolding apply call
  apply-Succeeds a b c pa pc w = ground (arith, takes w.log a pa, takes (a ∷ w.log) c pc)

  apply_worker_role-Succeeds :
      (name : Text) (cs : List Text) → Succeeds (apply_worker_role s name cs)
  unfolding apply_worker_role call
  apply_worker_role-Succeeds name [] w = ground (arith, takes w.log (get_role name) refl)
  apply_worker_role-Succeeds name (c ∷ cs) w = apply-Succeeds _ _ _ refl refl w

  pub ensure_worker_identity-Succeeds :
      (p : Platform) (allowed : List Text) → Succeeds (ensure_worker_identity s p allowed)
  unfolding ensure_worker_identity
  ensure_worker_identity-Succeeds p allowed w =
      let name = worker_service_account_name p w.object in
      let owned = call-Succeeds (set_controller_reference name) refl in
      let account =
        apply-Succeeds (get_service_account name) (create_service_account name)
          (update_service_account name) refl refl in
      let role = apply_worker_role-Succeeds name (resource_names allowed) in
      let binding =
        apply-Succeeds (get_role_binding name) (create_role_binding name) (update_role_binding name)
          refl refl in
      elim (Bool-cases (is_empty w.object.spec.ingestion.service_account_name)) [
        | inr custom ↦ rw (custom, ensure_worker_identity) refl
        | inl own ↦
            rw (own, ensure_worker_identity)
              (before-Succeeds _ _ owned
                (before-Succeeds _ _ account (
                  before-Succeeds _ _ owned
                    (before-Succeeds _ _ role (before-Succeeds _ _ owned binding))))
                w)
      ]

  create_owned-Succeeds : (name : Text) → Succeeds (create_owned s name)
  unfolding create_owned call ignore_already_exists
  create_owned-Succeeds name w = ground (
    arith,
    takes w.log (set_controller_reference name) refl,
    takes (set_controller_reference name ∷ w.log) (create_config_map name) refl,
  )

  pub prepare_worker_job-Succeeds :
      (p : Platform) (job : Text) (additional : List Text)
      → Succeeds (prepare_worker_job s p job additional)
  unfolding prepare_worker_job
  prepare_worker_job-Succeeds p job additional =
      before-Succeeds _ _ (create_owned-Succeeds (result_config_map_name p job)) (
        before-Succeeds _ _ (create_owned-Succeeds (checkpoint_config_map_name p job))
          (ensure_worker_identity-Succeeds p _))

  pub validate-Succeeds : Succeeds (validate_custom_worker_service_account s)
  unfolding validate_custom_worker_service_account call
  validate-Succeeds w =
      ground
        (arith, takes w.log (get_service_account w.object.spec.ingestion.service_account_name) refl)
