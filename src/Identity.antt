-- ===== src/Identity.antt =====
-- internal/controller/worker_identity.go: the service account, role and binding of the worker.
pub mod Names
pub mod Calls
pub mod Keeps
pub mod Success
use kuberag.Prelude.{
  if◌then◌else◌, is_empty, Text, codes, not, Option, none, some, List, [], ◌∷◌, ◌++◌,
}
use kuberag.Platform.{Platform}
use kuberag.Api.KnowledgeBase.{KnowledgeBase}
use kuberag.Names.{trunc_name, result_config_map_name, checkpoint_config_map_name}
use kuberag.Cluster.{
  ◌>>=◌, ◌>>◌, Server, Call, get_service_account, create_service_account, update_service_account,
  get_role, create_role, update_role, get_role_binding, create_role_binding, update_role_binding,
  create_config_map, set_controller_reference, ApiError, other, M, pure, get, call, attempt, answer,
  on_error, Got, found, refused, is_not_found, ignore_already_exists,
}
use Names.{resource_names}

unfoldable pub worker_service_account_name : Platform → KnowledgeBase → Text
worker_service_account_name p kb =
    let name = kb.spec.ingestion.service_account_name in
    if is_empty name then trunc_name p (kb.name ++ codes "-worker") else name

-- `if err := …; err != nil { return err }`, and the code behind it.
infixr 4 ◌before◌
unfoldable pub ◌before◌ :
    {S : Type 0} → M S (Option ApiError) → M S (Option ApiError) → M S (Option ApiError)
m before rest = do err ← m; on_error err (λ e. pure (some e)) rest

module _ (s : Server) where
  fetch_role : Text → M KnowledgeBase (Got (List Text))
  fetch_role name w = (
    answer s (s.ack w.log (get_role name)) (s.role w.log name),
    record w { log = get_role name ∷ w.log },
  )

  pub validate_custom_worker_service_account : M KnowledgeBase (Option ApiError)
  validate_custom_worker_service_account = do
    kb ← get
    let name = kb.spec.ingestion.service_account_name
    if is_empty name then pure none else do
      err ← call s (get_service_account name)
      on_error err
          (λ e.
            pure (some (if is_not_found e then other (codes "ServiceAccount not found") else e)))
          (pure none)

  -- Get, then Create where it is missing, Update where it is there.
  pub apply : Call → Call → Call → M KnowledgeBase (Option ApiError)
  apply read create update = do
    err ← call s read
    on_error err (λ e. if is_not_found e then call s create else pure (some e)) (call s update)

  -- An empty list leaves the rules of a role that exists as they are.
  pub apply_worker_role : Text → List Text → M KnowledgeBase (Option ApiError)
  apply_worker_role name [] = do
    err ← call s (get_role name)
    on_error err (λ e. if is_not_found e then call s (create_role name []) else pure (some e))
        (pure none)
  apply_worker_role name (c ∷ cs) =
      apply (get_role name) (create_role name (c ∷ cs)) (update_role name (c ∷ cs))

  pub ensure_worker_identity : Platform → List Text → M KnowledgeBase (Option ApiError)
  unfolding apply apply_worker_role
  ensure_worker_identity p allowed = do
    kb ← get
    let name = worker_service_account_name p kb
    let own = call s (set_controller_reference name)
    let account =
        apply (get_service_account name) (create_service_account name) (update_service_account name)
    let role = apply_worker_role name (resource_names allowed)
    let binding =
        apply (get_role_binding name) (create_role_binding name) (update_role_binding name)
    if not (is_empty kb.spec.ingestion.service_account_name)
        then pure none
        else own before (account before (own before (role before (own before binding))))

  -- A ConfigMap of the job's, owned by the KnowledgeBase; one that exists is kept.
  create_owned : Text → M KnowledgeBase (Option ApiError)
  create_owned name = do
    err ← call s (set_controller_reference name)
    on_error err (λ e. pure (some e))
        do err ← call s (create_config_map name); pure (ignore_already_exists err)

  pub prepare_worker_job : Platform → Text → List Text → M KnowledgeBase (Option ApiError)
  unfolding create_owned
  prepare_worker_job p job additional = do
    let result = result_config_map_name p job
    let checkpoint = checkpoint_config_map_name p job
    create_owned result
        before (create_owned checkpoint
            before ensure_worker_identity p (result ∷ checkpoint ∷ additional))

  pub clear_worker_config_map_access : Platform → M KnowledgeBase (Unit {0})
  unfolding fetch_role
  clear_worker_config_map_access p = do
    kb ← get
    let name = worker_service_account_name p kb
    if not (is_empty kb.spec.ingestion.service_account_name) then pure tt else do
      role ← fetch_role name
      elim role [
        | refused e ↦ pure tt
        | found names ↦ if is_empty names then pure tt else attempt s (update_role name [])
      ]
