-- ===== src/Retriever/Pass/Ends.antt =====
-- How a pass of the Retriever controller ends that returns no error.
use kuberag.Prelude.{
  if◌then◌else◌, Text, ◌≡◌, refl, sym, ap, ◌∙◌, Bool, true, false, Option, none, some, [], ◌∷◌,
}
use kuberag.Platform.{Platform}
use kuberag.Api.KnowledgeBase.{KnowledgeBase, Reason, knowledge_base_not_found}
use mathlib.Core.Path.{subst}
use kuberag.Api.Retriever.{Retriever}
use kuberag.Api.Workloads.{Deployment, deployments}
use kuberag.Cluster.{
  Server, Pass, M, Got, found, refused, answer, Outcome, done, ApiError, on_error, fails,
  read_workload, update_retriever_status, is_not_found,
}
use kuberag.History.{Past}
use kuberag.Secrets.Frame.{append_secrets-Adds}
use kuberag.Retriever.Secrets.{
  checked_refs, hashed_refs, validate_retriever_secrets, retriever_secrets_hash,
}
use kuberag.Retriever.Secrets.Checks.{
  AllHeld, AllHeld-append, AllHeld-Adds, validate_refs-Validated,
}
use kuberag.Retriever.Deployment.{desired_deployment}
use kuberag.Retriever.Apply.{Live, apply_objects, remove_retriever_workload}
use kuberag.Retriever.Apply.Effects.{
  AllSettled, AllSettled-append, WorkloadRemoved-append, apply_objects-Ensures,
  remove_retriever_workload-Ensures,
}
use kuberag.Retriever.Pass.{
  withheld, withhold, fetch_ready, report, deploy, serve, serve_unless, use_knowledge_base,
  fetch_knowledge_base, reconcile,
}
use kuberag.Retriever.Pass.Outcomes.{Stored, Ends, store-told, store-Stored, report-Ends}

module _ (p : Platform) (s : Server) (live : Live) where
  -- A step that reports an error or none, and a rest that is reached where it reports none.
  past_error :
      (Q : Pass Retriever → Type 0) (e : Option ApiError) (rest : M Retriever Outcome)
      (u : Pass Retriever)
      → (e ≡ none → (rest u).0 ≡ done → Q (rest u).1)
      → (on_error e fails rest u).0 ≡ done
      → Q (on_error e fails rest u).1
  past_error Q none rest u f h = f refl h
  past_error Q (some e) rest u f h = cc

  -- The end of a pass, told of the object that it started with.
  abbrev Good : Retriever → Pass Retriever → Type 0
  Good rt v = Stored p s live v × Ends p s live rt v

  withhold-Ends :
      (reason : Reason) (w : Pass Retriever)
      → (withhold p s live reason w).0 ≡ done
      → Good w.object (withhold p s live reason w).1
  unfolding withhold
  withhold-Ends reason w =
      let removal = remove_retriever_workload-Ensures s w.object in
      let u = (remove_retriever_workload s w.object w).1 in
      let v : Pass Retriever = record u { object = withheld p reason u.object } in
      let call = update_retriever_status v.object.status in
      past_error (Good w.object) (remove_retriever_workload s w.object w).0 _ u (λ good h. (
        store-Stored p s live v h,
        subst (Ends p s live w.object) (sym (store-told p s live v)) (
            Ends.withheld_for reason (ap (withheld p reason) (removal.adds w).same_object)
              (WorkloadRemoved-append s w.object (call ∷ []) u.log (removal.holds w good))),
      ))

  deploy-Ends :
      (kb : KnowledgeBase) (hash : Text) (dep : Option Deployment) (w : Pass Retriever)
      → desired_deployment p w.object kb hash ≡ dep
      → AllHeld s (checked_refs w.object kb) w.log
      → (deploy p s live kb dep w).0 ≡ done
      → Good w.object (deploy p s live kb dep w).1
  unfolding deploy fetch_ready
  deploy-Ends kb hash none w rendered held = λ h. cc
  deploy-Ends kb hash (some dep) w rendered held =
      let applying = apply_objects-Ensures s live w.object dep in
      let u = (apply_objects s live w.object dep w).1 in
      let same : u.object ≡ w.object = (applying.adds w).same_object in
      let read = read_workload deployments dep.name in
      let v : Pass Retriever = record u { log = read ∷ u.log } in
      let got = answer s (s.ack u.log read) (live.ready_replicas u.log dep.name) in
      let held' : AllHeld s (checked_refs u.object kb) u.log =
        subst (λ rt. AllHeld s (checked_refs rt kb) u.log) (sym same)
          (AllHeld-Adds s (checked_refs w.object kb) (applying.adds w) held) in
      past_error (Good w.object) (apply_objects s live w.object dep w).0 _ u (λ good h.
        subst (λ rt. Good rt (report p s live kb got v).1) same
          (report-Ends p s live kb hash dep v
            (ap (λ rt. desired_deployment p rt kb hash) same ∙ rendered)
            (AllHeld-append s (checked_refs u.object kb) (read ∷ []) u.log held') got
            (AllSettled-append s u.object dep (read ∷ []) u.log
              (subst (λ rt. AllSettled s rt dep u.log) (sym same) (applying.holds w good)))
            (λ ready e. Past.here e) h))

  -- From a pass whose object is the one that the pass started with.
  from_same :
      {rt : Retriever} {v : Pass Retriever} (u : Pass Retriever)
      → u.object ≡ rt
      → Good u.object v
      → Good rt v
  from_same {v = v} u same = subst (λ rt. Good rt v) same

  serve-Ends :
      (kb : KnowledgeBase) (w : Pass Retriever)
      → AllHeld s (checked_refs w.object kb) w.log
      → (serve p s live kb w).0 ≡ done
      → Good w.object (serve p s live kb w).1
  unfolding serve retriever_secrets_hash
  serve-Ends kb w held h =
      let a = append_secrets-Adds s (hashed_refs w.object kb) w in
      let (hash, u) = retriever_secrets_hash s p w.object kb w in
      from_same u a.same_object (
        deploy-Ends kb hash (desired_deployment p w.object kb hash) u
          (ap (λ rt. desired_deployment p rt kb hash) a.same_object)
          (subst (λ rt. AllHeld s (checked_refs rt kb) u.log) (sym a.same_object)
            (AllHeld-Adds s (checked_refs w.object kb) a held))
          h)

  serve_unless-Ends :
      (kb : KnowledgeBase) (fault : Option Reason) (w : Pass Retriever)
      → (fault ≡ none → AllHeld s (checked_refs w.object kb) w.log)
      → (serve_unless p s live kb fault w).0 ≡ done
      → Good w.object (serve_unless p s live kb fault w).1
  unfolding serve_unless
  serve_unless-Ends kb none w held = serve-Ends kb w (held refl)
  serve_unless-Ends kb (some reason) w held = withhold-Ends reason w

  withhold_if-Ends :
      (gone : Bool) (e : ApiError) (w : Pass Retriever)
      → let out = (if gone then withhold p s live knowledge_base_not_found else fails e) w in
        out.0 ≡ done → Good w.object out.1
  withhold_if-Ends true e w = withhold-Ends knowledge_base_not_found w
  withhold_if-Ends false e w = λ h. cc

  use_knowledge_base-Ends :
      (got : Got KnowledgeBase) (w : Pass Retriever)
      → (use_knowledge_base p s live got w).0 ≡ done
      → Good w.object (use_knowledge_base p s live got w).1
  unfolding use_knowledge_base validate_retriever_secrets
  use_knowledge_base-Ends (found kb) w h =
      let refs = checked_refs w.object kb in
      let check = validate_refs-Validated s refs w in
      let (fault, u) = validate_retriever_secrets s w.object kb w in
      from_same u check.adds.same_object (
        serve_unless-Ends kb fault u
          (λ good.
            subst (λ rt. AllHeld s (checked_refs rt kb) u.log) (sym check.adds.same_object)
              (check.all_held good))
          h)
  use_knowledge_base-Ends (refused e) w h = withhold_if-Ends (is_not_found e) e w h

  pub reconcile-Ends :
      (w : Pass Retriever)
      → (reconcile p s live w).0 ≡ done
      → Stored p s live (reconcile p s live w).1 × Ends p s live w.object (reconcile p s live w).1
  unfolding reconcile fetch_knowledge_base
  reconcile-Ends w h = use_knowledge_base-Ends _ _ h
