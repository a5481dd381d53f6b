-- ===== src/Status/Saving.antt =====
-- What statusUpdate writes.
use kuberag.Prelude.{
  Bool-cases, Option-cases, ℕ, zero, suc, ◌≡◌, refl, sym, ◌∙◌, inl, inr, Option, none, arith,
}
use mathlib.Core.Path.{subst}
use kuberag.Api.KnowledgeBase.{KnowledgeBase, KnowledgeBaseStatus}
use kuberag.Cluster.{Server, ApiError, Pass, call, get_knowledge_base, update_status, Outcome}
use kuberag.History.{Accepted, here, Quiet}
use kuberag.Status.{put_status, retry_on_conflict, status_update, update_and_return, is_conflict}

-- A call that leaves the object alone, and after which the status is stored if there is no error.
pub record Saves (s : Server) (st : KnowledgeBaseStatus) (w : Pass KnowledgeBase)
    (r : Option ApiError × Pass KnowledgeBase) : Type 0 where
  pub quiet : Quiet w r.1
  pub stored : r.0 ≡ none → Accepted s (update_status st) r.1.log

put_status-Saves :
    (s : Server) (st : KnowledgeBaseStatus) (w : Pass KnowledgeBase)
    → Saves s st w (put_status s st w)
unfolding put_status call
put_status-Saves s st w = elim (Option-cases (s.ack w.log get_knowledge_base)) [
  | inl e ↦
      rw (e, put_status)
        (record {
          quiet = record { same_object = refl; no_deletions = omega arith; no_jobs = omega arith };
          stored = λ h. here h;
        })
  | inr (x, e) ↦
      rw (e, put_status)
        (record {
          quiet = record { same_object = refl; no_deletions = omega arith; no_jobs = omega arith };
          stored = λ h. cc;
        })
]

pub Quiet-trans : {u v w : Pass KnowledgeBase} → Quiet u v → Quiet v w → Quiet u w
Quiet-trans a b = record {
  same_object = b.same_object ∙ a.same_object;
  no_deletions = b.no_deletions ∙ a.no_deletions;
  no_jobs = b.no_jobs ∙ a.no_jobs;
}

retry-Saves :
    (s : Server) (st : KnowledgeBaseStatus) (n : ℕ) (w : Pass KnowledgeBase)
    → Saves s st w (retry_on_conflict s n (put_status s st) w)
unfolding retry_on_conflict is_conflict put_status call
retry-Saves s st zero w = put_status-Saves s st w
retry-Saves s st (suc n) w =
    let first = put_status-Saves s st w in
    let later = retry-Saves s st n (put_status s st w).1 in
    elim (Bool-cases (is_conflict (put_status s st w).0)) [
      | inl again ↦
          rw (again, retry_on_conflict)
            (record { quiet = Quiet-trans first.quiet later.quiet; stored = later.stored })
      | inr final ↦ rw (final, retry_on_conflict) first
    ]

-- However often it is tried, and whatever the server answers: statusUpdate leaves the object in
-- memory alone, deletes nothing and starts no Job; and where it reports no error, the server took
-- the status.
pub status_update-Saves :
    (s : Server) (w : Pass KnowledgeBase) → Saves s w.object.status w (status_update s w)
unfolding status_update
status_update-Saves s w = retry-Saves s w.object.status s.retry_steps w

-- The stored status is that of the object as it is afterwards.
pub status_update-stored :
    (s : Server) (w : Pass KnowledgeBase)
    → (status_update s w).0 ≡ none
    → Accepted s (update_status (status_update s w).1.object.status) (status_update s w).1.log
status_update-stored s w e =
    let law = status_update-Saves s w in
    subst (λ kb. Accepted s (update_status kb.status) (status_update s w).1.log)
      (sym law.quiet.same_object) (law.stored e)

pub update_and_return-Quiet :
    (s : Server) (out : Outcome) (w : Pass KnowledgeBase) → Quiet w (update_and_return s out w).1
unfolding update_and_return
update_and_return-Quiet s out w = elim (Option-cases (status_update s w).0) [
  | inl stored ↦ rw (stored, update_and_return) (status_update-Saves s w).quiet
  | inr (e, bad) ↦ rw (bad, update_and_return) (status_update-Saves s w).quiet
]
