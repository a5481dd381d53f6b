-- ===== src/Identity/Calls.antt =====
-- The calls that worker_identity.go makes.
use kuberag.Prelude.{
  Bool-cases, Option-cases, is_empty, Text, ◌≡◌, refl, inl, inr, Option, List, [], ◌∷◌, arith,
}
use kuberag.Platform.{Platform}
use kuberag.Api.KnowledgeBase.{KnowledgeBase}
use kuberag.Cluster.{
  Server, ApiError, M, Pass, call, attempt, get_role_binding, create_role_binding,
  update_role_binding, get_service_account, create_service_account, update_service_account, Call,
  set_controller_reference,
}
use kuberag.History.{deletion, creation, Quiet}
use kuberag.Status.Saving.{Quiet-trans}
use kuberag.Identity.{
  clear_worker_config_map_access, ensure_worker_identity, validate_custom_worker_service_account,
  ◌before◌, apply, apply_worker_role, worker_service_account_name,
}

pub clear-Quiet :
    (s : Server) (p : Platform) (w : Pass KnowledgeBase)
    → Quiet w (clear_worker_config_map_access s p w).1
unfolding clear_worker_config_map_access attempt
clear-Quiet s p w = ground arith

pub validate-Quiet :
    (s : Server) (w : Pass KnowledgeBase) → Quiet w (validate_custom_worker_service_account s w).1
unfolding validate_custom_worker_service_account call
validate-Quiet s w = ground arith

-- A call that is no deletion and no creation of a Job.
abbrev IsQuiet : Call → Type 0
IsQuiet c = (deletion c ≡ 0) × (creation c ≡ 0)

call-Quiet : (s : Server) (c : Call) (w : Pass KnowledgeBase) → IsQuiet c → Quiet w (call s c w).1
unfolding call
call-Quiet s c w q = ground arith

apply-Quiet :
    (s : Server) (a b c : Call) (w : Pass KnowledgeBase)
    → IsQuiet a
    → IsQuiet b
    → IsQuiet c
    → Quiet w (apply s a b c w).1
unfolding apply call
apply-Quiet s a b c w qa qb qc = ground arith

apply_worker_role-Quiet :
    (s : Server) (name : Text) (cs : List Text) (w : Pass KnowledgeBase)
    → Quiet w (apply_worker_role s name cs w).1
unfolding apply_worker_role call
apply_worker_role-Quiet s name [] w = ground arith
apply_worker_role-Quiet s name (c ∷ cs) w =
    apply-Quiet s _ _ _ w (refl, refl) (refl, refl) (refl, refl)

Quiet-refl : (w : Pass KnowledgeBase) → Quiet w w
Quiet-refl w = record { same_object = refl; no_deletions = refl; no_jobs = refl }

-- A step that may fail, and the rest behind it where it does not.
before-Quiet :
    (m rest : M KnowledgeBase (Option ApiError)) (w : Pass KnowledgeBase)
    → Quiet w (m w).1
    → ((u : Pass KnowledgeBase) → Quiet u (rest u).1)
    → Quiet w ((m before rest) w).1
unfolding ◌before◌
before-Quiet m rest w q h = elim (Option-cases (m w).0) [
  | inl good ↦ rw (good, ◌before◌) (Quiet-trans q (h (m w).1))
  | inr (e, bad) ↦ rw (bad, ◌before◌) q
]

pub ensure_worker_identity-Quiet :
    (s : Server) (p : Platform) (allowed : List Text) (w : Pass KnowledgeBase)
    → Quiet w (ensure_worker_identity s p allowed w).1
unfolding ensure_worker_identity
ensure_worker_identity-Quiet s p allowed w =
    elim (Bool-cases (is_empty w.object.spec.ingestion.service_account_name)) [
      | inr custom ↦ rw (custom, ensure_worker_identity) (Quiet-refl w)
      | inl own ↦
          rw (own, ensure_worker_identity)
            (before-Quiet _ _ w (owned w) λ u. before-Quiet _ _ u (applied u) λ u.
              before-Quiet _ _ u (owned u) λ u.
                before-Quiet _ _ u (apply_worker_role-Quiet s name _ u)
                  λ u. before-Quiet _ _ u (owned u) bound)
    ]
  where
    name : Text
    name = worker_service_account_name p w.object

    owned : (u : Pass KnowledgeBase) → Quiet u (call s (set_controller_reference name) u).1
    owned u = call-Quiet s (set_controller_reference name) u (refl, refl)

    applied :
        (u : Pass KnowledgeBase)
        → Quiet u
            (apply s
              (get_service_account name)
              (create_service_account name)
              (update_service_account name)
              u).1
    applied u = apply-Quiet s _ _ _ u (refl, refl) (refl, refl) (refl, refl)

    bound :
        (u : Pass KnowledgeBase)
        → Quiet u
            (apply s
              (get_role_binding name)
              (create_role_binding name)
              (update_role_binding name)
              u).1
    bound u = apply-Quiet s _ _ _ u (refl, refl) (refl, refl) (refl, refl)
