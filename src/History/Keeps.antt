-- ===== src/History/Keeps.antt =====
-- Facts about a pass that its steps keep.
use kuberag.Prelude.{◌≡◌, [], ◌∷◌}
use kuberag.Api.KnowledgeBase.{KnowledgeBase}
use kuberag.Cluster.{Server, Call, History, Pass, M}
use kuberag.History.{creation, Accepted}

-- A fact that a step keeps, from wherever the step starts.
abbrev pub Keeps : {A : Type 0} → (Pass KnowledgeBase → Type 0) → M KnowledgeBase A → Type 0
Keeps Q m = (w : Pass KnowledgeBase) → Q w → Q (m w).1

-- A fact that no call ends which creates no Job.
pub record IsCalled (Q : Pass KnowledgeBase → Type 0) : Type 0 where
  pub called :
      (c : Call) (kb : KnowledgeBase) (h : History)
      → creation c ≡ 0
      → Q (record { object = kb; log = h })
      → Q (record { object = kb; log = c ∷ h })

pub Same-IsCalled : (kb : KnowledgeBase) → IsCalled (λ u. u.object ≡ kb)
Same-IsCalled kb = record { called = λ c o h plain same. same }

-- A fact that neither a call which creates no Job can end, nor a change that leaves the active Job.
pub record IsSteady (Q : Pass KnowledgeBase → Type 0) : Type 0 where
  pub called :
      (c : Call) (kb : KnowledgeBase) (h : History)
      → creation c ≡ 0
      → Q (record { object = kb; log = h })
      → Q (record { object = kb; log = c ∷ h })
  pub changed :
      (kb kb' : KnowledgeBase) (h : History)
      → kb'.status.active_job ≡ kb.status.active_job
      → Q (record { object = kb; log = h })
      → Q (record { object = kb'; log = h })

pub by_calls : {Q : Pass KnowledgeBase → Type 0} → IsSteady Q → IsCalled Q
by_calls st = record { called = st.called }

-- Nor a change after which no Job is active.
pub record IsLoose (Q : Pass KnowledgeBase → Type 0) : Type 0 where
  pub steady : IsSteady Q
  pub cleared :
      (kb kb' : KnowledgeBase) (h : History)
      → kb'.status.active_job ≡ []
      → Q (record { object = kb; log = h })
      → Q (record { object = kb'; log = h })

-- A call that the server took stays taken.
pub Accepted-IsSteady : (s : Server) (c : Call) → IsSteady (λ u. Accepted s c u.log)
Accepted-IsSteady s c = record {
  called = λ x kb h plain a. Accepted.there a;
  changed = λ kb kb' h same a. a;
}
