-- ===== src/Reconcile/Cancelling.antt =====
-- The Jobs that Reconcile itself gives up: a stale one, and one that ran past its deadline.
use kuberag.History.Keeps.{by_calls}
use kuberag.Prelude.{Option-cases, Text, ◌≡◌, refl, ◌∙◌, inl, inr, true, false, ◌∷◌, arith}
use mathlib.Core.Path.{subst}
use kuberag.Platform.{Platform}
use kuberag.Names.{checkpoint_config_map_name}
use kuberag.Api.KnowledgeBase.{KnowledgeBase, ingestion_cancelled, ingestion_stuck}
use kuberag.Api.Jobs.{Job}
use kuberag.Cluster.{
  Server, Pass, attempt, time_now, fetch_key, fetch_job, get_job, get_config_map, delete_job, event,
  History,
}
use kuberag.Status.{set_condition}
use kuberag.Status.Keeps.{status_update-Keeps}
use kuberag.Identity.{clear_worker_config_map_access}
use kuberag.Identity.Keeps.{clear-Keeps}
use kuberag.History.{Past}
use kuberag.History.Launches.{active}
use kuberag.Ingestion.{read_checkpoint_result}
use kuberag.Ingestion.Keeps.{forgotten}
use kuberag.Reconcile.{cancel_stale, clear_stuck, judge_active, check_active, stuck}
use kuberag.Reconcile.Vacancy.{Vacant, Vacant-IsSteady, Vacates, Vacates-IsSteady, vacate}

module _ (p : Platform) (s : Server) (w : Pass KnowledgeBase) where
  cancel_stale-Vacates :
      (job : Job) (u : Pass KnowledgeBase)
      → job.name ≡ active w
      → Vacates s w u
      → Vacates s w (cancel_stale p s job u).1
  unfolding cancel_stale attempt
  cancel_stale-Vacates job u same v =
      let st = Vacates-IsSteady s w in
      let gs = Vacant-IsSteady s (active w) in
      let e = event false ingestion_cancelled in
      let d = delete_job job.name in
      let h : History = d ∷ e ∷ u.log in
      let gone : Vacant s (active w) h =
        subst (λ name. Vacant s name h) same (inl (Past.here tt)) in
      let deleted = st.called d u.object _ refl (st.called e u.object u.log refl v) in
      let u1 : Pass KnowledgeBase = record { object = u.object; log = h } in
      let c = (clear_worker_config_map_access s p u1).1 in
      let cleared = clear-Keeps s (Vacates s w) (by_calls st) p u1 deleted in
      let gone' = clear-Keeps s (λ x. Vacant s (active w) x.log) (by_calls gs) p u1 gone in
      status_update-Keeps s (Vacates s w) st (forgotten c)
        (vacate s c.object (forgotten c).object c.log refl gone' cleared)

  clear_stuck-Vacates :
      (job : Job) (chash : Text) (u : Pass KnowledgeBase)
      → job.name ≡ active w
      → Vacates s w u
      → Vacates s w (clear_stuck p s job chash u).1
  unfolding clear_stuck attempt read_checkpoint_result fetch_key time_now stuck set_condition
  clear_stuck-Vacates job chash u same v =
      let st = Vacates-IsSteady s w in
      let gs = Vacant-IsSteady s (active w) in
      let e = event true ingestion_stuck in
      let d = delete_job job.name in
      let g = get_config_map (checkpoint_config_map_name p job.name) in
      let h : History = d ∷ e ∷ u.log in
      let gone : Vacant s (active w) h =
        subst (λ name. Vacant s name h) same (inl (Past.here tt)) in
      let deleted = st.called d u.object _ refl (st.called e u.object u.log refl v) in
      let u1 : Pass KnowledgeBase = record { object = u.object; log = h } in
      let u2 : Pass KnowledgeBase = record { object = u.object; log = g ∷ h } in
      let c = (clear_worker_config_map_access s p u2).1 in
      let cleared =
        clear-Keeps s (Vacates s w) (by_calls st) p u2 (st.called g u.object h refl deleted) in
      let gone' =
        clear-Keeps s (λ x. Vacant s (active w) x.log) (by_calls gs) p u2
          (gs.called g u.object h refl gone) in
      let kb = stuck p (s.now c.log) chash (read_checkpoint_result p s job.name u1).0 c.object in
      status_update-Keeps s (Vacates s w) st _ (vacate s c.object kb c.log refl gone' cleared)

  judge_active-Vacates :
      (job : Job) (chash secrets_hash : Text) (u : Pass KnowledgeBase)
      → job.name ≡ active w
      → Vacates s w u
      → Vacates s w (judge_active p s job chash secrets_hash u).1
  unfolding judge_active time_now
  judge_active-Vacates job chash secrets_hash u same v =
      let cancelled = cancel_stale-Vacates job u same v in
      let cleared = clear_stuck-Vacates job chash u same v in ground arith

  -- The server reads a Job under its own name.
  pub check_active-Vacates :
      ((h : History) (name : Text) → (s.job h name).name ≡ name)
      → (chash secrets_hash : Text) (u : Pass KnowledgeBase) → active u ≡ active w
      → Vacates s w u
      → Vacates s w (check_active p s chash secrets_hash u).1
  unfolding check_active fetch_job
  check_active-Vacates named chash secrets_hash u same v =
      let read = (Vacates-IsSteady s w).called (get_job (active u)) u.object u.log refl v in
      let u1 : Pass KnowledgeBase = record u { log = get_job (active u) ∷ u.log } in
      let judged =
        judge_active-Vacates (s.job u.log (active u)) chash secrets_hash u1
          (named u.log (active u) ∙ same) read in
      elim (Option-cases (s.ack u.log (get_job (active u)))) [
        | inl there ↦ ground arith
        | inr (e, bad) ↦ ground arith
      ]
