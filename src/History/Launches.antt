-- ===== src/History/Launches.antt =====
-- Steps that create no Job, and steps that create one.
use kuberag.Prelude.{
  Text, ◌+◌, ◌≡◌, refl, sym, ap, ◌∙◌, ◌⊎◌, inl, inr, none, List, [], ◌∷◌, ◌++◌, arith,
}
use mathlib.Core.List.{append_assoc}
use kuberag.Api.KnowledgeBase.{KnowledgeBase}
use kuberag.Api.Jobs.{Job}
use kuberag.Cluster.{Call, Server, History, Pass, create_job}
use kuberag.History.{creation, jobs_created}
use kuberag.History.Keeps.{IsSteady, IsLoose}

pub jobs_created-append : (k h : History) → jobs_created (k ++ h) ≡ jobs_created k + jobs_created h
jobs_created-append [] h = omega arith
jobs_created-append (c ∷ k) h = omega (arith, jobs_created-append k h)

abbrev pub active : Pass KnowledgeBase → Text
active w = w.object.status.active_job

-- The calls from one history to another, with no creation of a Job among them.
pub record Plain (g h : History) : Type 0 where
  pub calls : List Call
  pub split : h ≡ calls ++ g
  pub no_jobs : jobs_created calls ≡ 0

pub Plain-refl : (h : History) → Plain h h
Plain-refl h = record { calls = []; split = refl; no_jobs = refl }

pub Plain-cons : {g h : History} (c : Call) → creation c ≡ 0 → Plain g h → Plain g (c ∷ h)
Plain-cons c plain k = record {
  calls = c ∷ k.calls;
  split = ap (c ∷◌) k.split;
  no_jobs = omega (arith, plain, k.no_jobs);
}

pub Plain-trans : {f g h : History} → Plain f g → Plain g h → Plain f h
Plain-trans {f = f} a b = record {
  calls = b.calls ++ a.calls;
  split = b.split ∙ ap (b.calls ++◌) a.split ∙ sym (append_assoc b.calls a.calls f);
  no_jobs = omega (arith, a.no_jobs, b.no_jobs, jobs_created-append b.calls a.calls);
}

-- From `w` to `u` no Job was created, and the active Job is the same or none.
pub record Frees (w u : Pass KnowledgeBase) : Type 0 where
  pub plain : Plain w.log u.log
  pub slot : (active u ≡ active w) ⊎ (active u ≡ [])

pub Frees-refl : (w : Pass KnowledgeBase) → Frees w w
Frees-refl w = record { plain = Plain-refl w.log; slot = inl refl }

pub Frees-IsLoose : (w : Pass KnowledgeBase) → IsLoose (Frees w)
Frees-IsLoose w = record {
  steady = record {
    called = λ c kb h plain f. record { plain = Plain-cons c plain f.plain; slot = f.slot };
    changed = λ kb kb' h same f. record { plain = f.plain; slot = ground (arith, f.slot) };
  };
  cleared = λ kb kb' h empty f. record { plain = f.plain; slot = inr empty };
}

-- From `w` to `u` one Job was asked for, and it is the active one only where the server took it.
pub record Launched (s : Server) (w u : Pass KnowledgeBase) : Type 0 where
  pub job : Job
  pub at : History
  pub before : Plain w.log at
  pub after : Plain (create_job job ∷ at) u.log
  pub slot : (active u ≡ []) ⊎ ((active u ≡ job.name) × (s.ack at (create_job job) ≡ none))

pub Launched-IsLoose : (s : Server) (w : Pass KnowledgeBase) → IsLoose (Launched s w)
Launched-IsLoose s w = record {
  steady = record {
    called = λ c kb h plain l. record {
      job = l.job;
      at = l.at;
      before = l.before;
      after = Plain-cons c plain l.after;
      slot = l.slot;
    };
    changed = λ kb kb' h same l. record {
      job = l.job;
      at = l.at;
      before = l.before;
      after = l.after;
      slot = ground (arith, l.slot);
    };
  };
  cleared = λ kb kb' h empty l. record {
    job = l.job;
    at = l.at;
    before = l.before;
    after = l.after;
    slot = inl empty;
  };
}

-- What a step that may create one Job does.
abbrev pub Starts : Server → Pass KnowledgeBase → Pass KnowledgeBase → Type 0
Starts s w u = Frees w u ⊎ Launched s w u

pub Starts-IsLoose : (s : Server) (w : Pass KnowledgeBase) → IsLoose (Starts s w)
Starts-IsLoose s w =
    let f = Frees-IsLoose w in
    let l = Launched-IsLoose s w in
    record {
      steady = record {
        called = λ c kb h plain q. elim q [
          | inl a ↦ inl (f.steady.called c kb h plain a)
          | inr b ↦ inr (l.steady.called c kb h plain b)
        ];
        changed = λ kb kb' h same q. elim q [
          | inl a ↦ inl (f.steady.changed kb kb' h same a)
          | inr b ↦ inr (l.steady.changed kb kb' h same b)
        ];
      };
      cleared = λ kb kb' h empty q. elim q [
        | inl a ↦ inl (f.cleared kb kb' h empty a)
        | inr b ↦ inr (l.cleared kb kb' h empty b)
      ];
    }

-- The creation of a Job, from where none is active.
pub asked :
    (s : Server) (job : Job) {w u : Pass KnowledgeBase}
    → active w ≡ []
    → Frees w u
    → Launched s w (record { object = u.object; log = create_job job ∷ u.log })
asked s job idle f = record {
  job = job;
  at = _;
  before = f.plain;
  after = Plain-refl _;
  slot = inl (ground (arith, f.slot));
}

pub Plain-IsSteady : (g : History) → IsSteady (λ u. Plain g u.log)
Plain-IsSteady g = record {
  called = λ c kb h plain k. Plain-cons c plain k;
  changed = λ kb kb' h same k. k;
}

-- The same where the server takes it, and after some calls the Job becomes the active one.
pub taken :
    (s : Server) (job : Job) {w u : Pass KnowledgeBase} (kb : KnowledgeBase) (h : History)
    → s.ack u.log (create_job job) ≡ none
    → kb.status.active_job ≡ job.name
    → Plain (create_job job ∷ u.log) h
    → Frees w u
    → Launched s w (record { object = kb; log = h })
taken s job kb h took named later f = record {
  job = job;
  at = _;
  before = f.plain;
  after = later;
  slot = inr (named, took);
}
