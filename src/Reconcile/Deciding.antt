-- ===== src/Reconcile/Deciding.antt =====
-- What Reconcile starts behind the Job that was active.
use kuberag.Prelude.{
  Bool-cases, Option-cases, is_empty, Text, ◌≡◌, refl, sym, ap, ◌∙◌, ◌⊎◌, inl, inr, false, [], ◌∷◌,
  arith,
}
use kuberag.Platform.{Platform}
use kuberag.Api.KnowledgeBase.{KnowledgeBase, ChunkingSpec}
use kuberag.Cluster.{Server, Pass, time_now}
use kuberag.History.Launches.{
  active, Plain-trans, Frees, Frees-refl, Frees-IsLoose, Launched, Starts,
}
use kuberag.Evaluation.Starts.{start_eval-Starts}
use kuberag.Ingestion.{reconcile_active_job}
use kuberag.Ingestion.Keeps.{reconcile_active_job-Keeps, reconcile_active_job-handled}
use kuberag.AutoTune.{record_auto_tune_duration}
use kuberag.Ingestion.Starts.{start_ingest-Starts}
use kuberag.Decisions.{needs_ingest}
use kuberag.Reconcile.{decide, steady, finish_active, continue_unless, drop_override, is_error}
use kuberag.Reconcile.Vacancy.{
  Vacant, Vacant-Plain, Vacates, Vacates-Frees, Vacated, Vacated-IsSteady, unknown-Vacated,
}

-- From `w` to `u` no Job was created, or one was, after the deletion of the Job that was active at `w`
-- was called for, or the server had answered that it does not know it, where one was active.
abbrev pub SingleFlight : Server → Pass KnowledgeBase → Pass KnowledgeBase → Type 0
SingleFlight s w u =
    Frees w u ⊎ ((l : Launched s w u) × ((active w ≡ []) ⊎ Vacant s (active w) l.at))

-- A Job that is created from where none is active any more.
resumed :
    (s : Server) {w v u : Pass KnowledgeBase}
    → active v ≡ []
    → Vacates s w v
    → Starts s v u
    → SingleFlight s w u
resumed s idle v (inl f) =
    inl (record { plain = Plain-trans v.plain f.plain; slot = ground (arith, f.slot) })
resumed s {w} idle v (inr l) = inr (
  record {
    job = l.job;
    at = l.at;
    before = Plain-trans v.plain l.before;
    after = l.after;
    slot = l.slot;
  },
  elim v.slot [
    | inl same ↦ inl (sym same ∙ idle)
    | inr (empty, gone) ↦ inr (Vacant-Plain s (active w) l.before gone)
  ],
)

empty_or : (t : Text) → (t ≡ []) ⊎ (is_empty t ≡ false)
empty_or [] = inl refl
empty_or (c ∷ t) = inr refl

module _ (p : Platform) (s : Server) where
  decide-Starts :
      (eff : ChunkingSpec) (chash secrets_hash : Text) (v : Pass KnowledgeBase)
      → active v ≡ []
      → Starts s v (decide p s eff chash secrets_hash v).1
  unfolding decide time_now steady
  decide-Starts eff chash secrets_hash v idle =
      let here : Starts s v v = inl (Frees-refl v) in
      elim (Option-cases (needs_ingest p v.object chash (s.now v.log))) [
        | inr (reason, due) ↦
            let on =
              start_ingest-Starts p s v idle eff chash secrets_hash reason v (Frees-refl v) in
            ground arith
        | inl fresh ↦ elim (Option-cases v.object.spec.retrieval_quality) [
          | inl unset ↦ ground arith
          | inr (rq, set) ↦
              let on = start_eval-Starts p s v idle rq eff chash secrets_hash v (Frees-refl v) in
              ground arith
        ]
      ]

  -- The flag `handled` is false only where the server does not know the active Job.
  unhandled-Vacated :
      {w : Pass KnowledgeBase} (eff : ChunkingSpec) (chash secrets_hash : Text)
      (v : Pass KnowledgeBase)
      → Vacates s w v
      → let out = reconcile_active_job p s eff chash secrets_hash v in
        out.0.1 ≡ false → Vacated s w out.1
  unhandled-Vacated {w} eff chash secrets_hash v k h =
      let law =
        reconcile_active_job-handled p s (Vacated s w) (Vacated-IsSteady s w) eff chash secrets_hash
          v h in
      law.1 (unknown-Vacated s _ law.0 refl k)

  pub finish_active-SingleFlight :
      {w : Pass KnowledgeBase} (eff : ChunkingSpec) (chash secrets_hash : Text)
      (v : Pass KnowledgeBase)
      → Vacates s w v
      → SingleFlight s w (finish_active p s eff chash secrets_hash v).1
  unfolding finish_active continue_unless
  finish_active-SingleFlight {w} eff chash secrets_hash v k =
      let r = reconcile_active_job p s eff chash secrets_hash v in
      let over =
        reconcile_active_job-Keeps p s (Frees w) (Frees-IsLoose w) eff chash secrets_hash v
          (Vacates-Frees k) in
      elim (empty_or (active v)) [
        | inl idle ↦
            rw (ap is_empty idle, finish_active)
              (resumed s idle k (decide-Starts eff chash secrets_hash v idle))
        | inr busy ↦ elim (Bool-cases (is_error r.0.0)) [
          | inl bad ↦ rw (busy, bad, finish_active) (inl over)
          | inr fine ↦ elim (Bool-cases r.0.1) [
            | inl handled ↦ rw (busy, fine, handled, finish_active) (inl over)
            | inr gone ↦
                let freed = unhandled-Vacated eff chash secrets_hash v k gone in
                rw (busy, fine, gone, finish_active)
                  (resumed s freed.1 freed.0 (decide-Starts eff chash secrets_hash r.1 freed.1))
          ]
        ]
      ]

  pub drop_override-active :
      (chash : Text) (kb : KnowledgeBase)
      → (drop_override chash kb).status.active_job ≡ kb.status.active_job
  unfolding drop_override record_auto_tune_duration
  drop_override-active chash kb = ground arith
