-- ===== src/Evaluation/Success.antt =====
-- The calls that startEval and startIngest have in common, against a server that takes all
-- ordinary calls.
use kuberag.Prelude.{Text, ◌≡◌, refl, none, some, List, ◌∷◌}
use kuberag.Platform.{Platform}
use kuberag.Api.KnowledgeBase.{KnowledgeBase}
use kuberag.Api.Jobs.{Job}
use kuberag.Names.{spec_config_map_name}
use kuberag.Cluster.{
  already_exists, done, is_quota_exceeded, Server, Pass, M, call, create_spec_config_map,
  create_job, set_controller_reference, Outcome, ignore_already_exists,
}
use kuberag.History.{Takes}
use kuberag.Identity.{prepare_worker_job}
use kuberag.History.Keeps.{Same-IsCalled}
use kuberag.Identity.Keeps.{prepare_worker_job-Keeps}
use kuberag.Identity.Success.{prepare_worker_job-Succeeds}
use kuberag.Evaluation.Starts.{launch}

-- What the calls of `launch` before the creation of the Job leave.
pub record Ready (p : Platform) (s : Server) (job : Job) (spec : Text) (additional : List Text)
    (u : Pass KnowledgeBase) : Type 0 where
  pub at : Pass KnowledgeBase
  pub same_object : at.object ≡ u.object
  pub taken :
      (rest : M KnowledgeBase Outcome)
      → s.ack at.log (create_job job) ≡ none
      → launch p s job spec additional rest u ≡ rest (record at { log = create_job job ∷ at.log })
  pub exists :
      (rest : M KnowledgeBase Outcome)
      → s.ack at.log (create_job job) ≡ some already_exists
      → launch p s job spec additional rest u ≡ (done, record at { log = create_job job ∷ at.log })

module _ (p : Platform) (s : Server) (takes : Takes s) where
  pub launch-Ready :
      (job : Job) (spec : Text) (additional : List Text) (u : Pass KnowledgeBase)
      → Ready p s job spec additional u
  unfolding call ignore_already_exists is_quota_exceeded
  launch-Ready job spec additional u =
      let c = create_spec_config_map (spec_config_map_name p job.name) spec in
      let u1 : Pass KnowledgeBase = record u { log = c ∷ u.log } in
      let m = prepare_worker_job s p job.name additional u1 in
      let own = set_controller_reference job.name in
      let made = takes u.log c refl in
      let prepared = prepare_worker_job-Succeeds s takes p job.name additional u1 in
      let owned = takes m.1.log own refl in
      record {
        at = record m.1 { log = own ∷ m.1.log };
        same_object =
            prepare_worker_job-Keeps s (λ x. x.object ≡ u.object) (Same-IsCalled u.object) p
              job.name additional u1 refl;
        taken = λ rest took. rw made (rw prepared (rw owned (rw took refl)));
        exists = λ rest known. rw made (rw prepared (rw owned (rw known refl)));
      }
