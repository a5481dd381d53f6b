-- ===== src/Status.antt =====
-- The helpers on a KnowledgeBase's status in internal/controller/knowledgebase_controller.go and
-- decision_helpers.go: statusUpdate, event, setCondition.
pub mod Saving
pub mod Keeps
pub mod Success
use kuberag.Prelude.{if◌then◌else◌, ℕ, zero, suc, Bool, true, false, Option, some}
use kuberag.Platform.{Platform}
use kuberag.Api.KnowledgeBase.{
  KnowledgeBase, KnowledgeBaseStatus, ConditionType, ready_condition, Reason,
  resource_quota_exceeded,
}
use kuberag.Cluster.{
  ◌>>=◌, ◌>>◌, Server, get_knowledge_base, update_status, event, ApiError, conflict, M, pure, get,
  modify, call, attempt, on_error, Outcome, requeue_after, fails, minute, is_quota_exceeded,
}

unfoldable pub set_condition :
    Platform → ConditionType → Bool → Reason → KnowledgeBase → KnowledgeBase
set_condition p type status reason kb = record kb {
  status = record (kb.status) {
    conditions = p.set_status_condition kb.status.conditions (record {
      type = type;
      status = status;
      reason = reason;
      observed_generation = kb.generation;
    });
  };
}

abbrev pub with_status : (KnowledgeBaseStatus → KnowledgeBaseStatus) → KnowledgeBase → KnowledgeBase
with_status f kb = record kb { status = f kb.status }

pub is_conflict : Option ApiError → Bool
is_conflict (some conflict) = true
is_conflict _ = false

module _ (s : Server) where
  -- The closure of statusUpdate: read the latest object, and write the status over its own.
  pub put_status : KnowledgeBaseStatus → M KnowledgeBase (Option ApiError)
  put_status desired = do
    err ← call s get_knowledge_base
    on_error err (λ e. pure (some e)) (call s (update_status desired))

  -- retry.RetryOnConflict: again while the answer is a conflict and attempts are left.
  pub retry_on_conflict : ℕ → M KnowledgeBase (Option ApiError) → M KnowledgeBase (Option ApiError)
  retry_on_conflict zero body = body
  retry_on_conflict (suc n) body = do
    err ← body
    elim (is_conflict err) [ true ↦ retry_on_conflict n body | false ↦ pure err ]

  pub status_update : M KnowledgeBase (Option ApiError)
  status_update = do kb ← get; retry_on_conflict s.retry_steps (put_status kb.status)

  -- `return ctrl.Result{…}, r.statusUpdate(ctx, kb)`
  pub update_and_return : Outcome → M KnowledgeBase Outcome
  update_and_return out = do err ← status_update; on_error err fails (pure out)

  report_quota : Platform → M KnowledgeBase Outcome
  report_quota p = do
    modify (set_condition p ready_condition false resource_quota_exceeded)
    err ← status_update
    on_error err fails
        do attempt s (event true resource_quota_exceeded); pure (requeue_after minute)

  -- The branches `if isQuotaExceeded(err) { … } return ctrl.Result{}, err`.
  pub quota_or_fail : Platform → ApiError → M KnowledgeBase Outcome
  unfolding report_quota
  quota_or_fail p e = if is_quota_exceeded e then report_quota p else fails e
