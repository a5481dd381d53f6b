-- ===== src/Reconcile/Vacancy.antt =====
-- How a pass comes to have no active Job.
use kuberag.Prelude.{Text, ◌≡◌, refl, sym, ◌∙◌, ◌⊎◌, inl, inr, some, [], ◌∷◌}
use mathlib.Core.Path.{subst}
use kuberag.Api.KnowledgeBase.{KnowledgeBase}
use kuberag.Cluster.{Server, History, Pass, delete_job, get_job, not_found}
use kuberag.History.{Past, Past-append}
use kuberag.History.Keeps.{IsSteady}
use kuberag.History.Launches.{active, Plain, Plain-refl, Plain-cons, Frees}

-- The deletion of the Job was called for, or the server answered that it does not know the Job.
abbrev pub Vacant : Server → Text → History → Type 0
Vacant s name h =
    Past (delete_job name) (λ k. Unit {0}) h
    ⊎ Past (get_job name) (λ k. s.ack k (get_job name) ≡ some not_found) h

pub Vacant-Plain :
    (s : Server) (name : Text) {g h : History} → Plain g h → Vacant s name g → Vacant s name h
Vacant-Plain s name {g} k v = elim v [
  | inl d ↦
      inl
        (subst (Past (delete_job name) (λ k. Unit {0})) (sym k.split) (Past-append _ _ k.calls g d))
  | inr n ↦ inr (
      subst (Past (get_job name) (λ k. s.ack k (get_job name) ≡ some not_found)) (sym k.split)
        (Past-append _ _ k.calls g n))
]

pub Vacant-IsSteady : (s : Server) (name : Text) → IsSteady (λ u. Vacant s name u.log)
Vacant-IsSteady s name = record {
  called = λ c kb h plain v. Vacant-Plain s name (Plain-cons c plain (Plain-refl h)) v;
  changed = λ kb kb' h same v. v;
}

-- From `w` to `u` no Job was created, and the active Job is the same.
abbrev pub Holds : Pass KnowledgeBase → Pass KnowledgeBase → Type 0
Holds w u = Plain w.log u.log × (active u ≡ active w)

pub Holds-refl : (w : Pass KnowledgeBase) → Holds w w
Holds-refl w = (Plain-refl w.log, refl)

pub Holds-IsSteady : (w : Pass KnowledgeBase) → IsSteady (Holds w)
Holds-IsSteady w = record {
  called = λ c kb h plain v. (Plain-cons c plain v.0, v.1);
  changed = λ kb kb' h same v. (v.0, same ∙ v.1);
}

-- From `w` to `u` no Job was created, and the active Job is the same, or there is none any more.
pub record Vacates (s : Server) (w u : Pass KnowledgeBase) : Type 0 where
  pub plain : Plain w.log u.log
  pub slot : (active u ≡ active w) ⊎ ((active u ≡ []) × Vacant s (active w) u.log)

pub Holds-Vacates : (s : Server) {w u : Pass KnowledgeBase} → Holds w u → Vacates s w u
Holds-Vacates s v = record { plain = v.0; slot = inl v.1 }

pub Vacates-IsSteady : (s : Server) (w : Pass KnowledgeBase) → IsSteady (Vacates s w)
Vacates-IsSteady s w = record {
  called = λ c kb h plain v. record {
    plain = Plain-cons c plain v.plain;
    slot = elim v.slot [
      | inl same ↦ inl same
      | inr (empty, gone) ↦
          inr (empty, Vacant-Plain s (active w) (Plain-cons c plain (Plain-refl h)) gone)
    ];
  };
  changed = λ kb kb' h same v. record {
    plain = v.plain;
    slot = elim v.slot [
      | inl kept ↦ inl (same ∙ kept)
      | inr (empty, gone) ↦ inr (same ∙ empty, gone)
    ];
  };
}

-- The active Job is given up, when it is known to be gone.
pub vacate :
    (s : Server) {w : Pass KnowledgeBase} (kb kb' : KnowledgeBase) (h : History)
    → kb'.status.active_job ≡ []
    → Vacant s (active w) h
    → Vacates s w (record { object = kb; log = h })
    → Vacates s w (record { object = kb'; log = h })
vacate s kb kb' h empty gone v = record { plain = v.plain; slot = inr (empty, gone) }

pub Vacates-Frees : {s : Server} {w u : Pass KnowledgeBase} → Vacates s w u → Frees w u
Vacates-Frees v = record {
  plain = v.plain;
  slot = elim v.slot [ inl same ↦ inl same | inr (empty, gone) ↦ inr empty ];
}

abbrev pub Vacated : Server → Pass KnowledgeBase → Pass KnowledgeBase → Type 0
Vacated s w u = Vacates s w u × (active u ≡ [])

pub Vacated-IsSteady : (s : Server) (w : Pass KnowledgeBase) → IsSteady (Vacated s w)
Vacated-IsSteady s w =
    let st = Vacates-IsSteady s w in
    record {
      called = λ c kb h plain v. (st.called c kb h plain v.0, v.1);
      changed = λ kb kb' h same v. (st.changed kb kb' h same v.0, same ∙ v.1);
    }

-- The server does not know the active Job, and it is given up.
pub unknown-Vacated :
    (s : Server) {w v : Pass KnowledgeBase} (kb : KnowledgeBase)
    → s.ack v.log (get_job (active v)) ≡ some not_found
    → kb.status.active_job ≡ []
    → Vacates s w v
    → Vacated s w (record { object = kb; log = get_job (active v) ∷ v.log })
unknown-Vacated s {w} {v} kb unknown empty k =
    let h : History = get_job (active v) ∷ v.log in
    let read = (Vacates-IsSteady s w).called (get_job (active v)) v.object v.log refl k in
    let gone : Vacant s (active w) h = elim k.slot [
      | inl same ↦ subst (λ name. Vacant s name h) same (inr (Past.here unknown))
      | inr (_, before) ↦
          Vacant-Plain s (active w) (Plain-cons (get_job (active v)) refl (Plain-refl v.log)) before
    ] in
    (vacate s v.object kb h empty gone read, empty)
