-- ===== src/Retriever/Pass/Outcomes.antt =====
-- What a pass of the Retriever controller ends with, and the write of its status.
use kuberag.Prelude.{Text, codes, ℕ, ◌≡◌, refl, sym, Option, none, some, [], ◌∷◌, ◌++◌}
use kuberag.Platform.{Platform}
use kuberag.Api.KnowledgeBase.{KnowledgeBase, Reason}
use mathlib.Core.Path.{subst}
use kuberag.VectorIndex.{VectorIndexHealth}
use kuberag.Api.Retriever.{Retriever}
use kuberag.Api.Workloads.{Deployment, deployments}
use kuberag.Names.{trunc_name}
use kuberag.Cluster.{
  Server, History, Pass, Got, found, refused, answer, done, ApiError, call, on_error, fails, pure,
  read_workload, read_vector_index, update_retriever_status,
}
use kuberag.History.{Past, Past-append}
use kuberag.Retriever.Secrets.{checked_refs}
use kuberag.Retriever.Secrets.Checks.{AllHeld, AllHeld-append}
use kuberag.Retriever.Deployment.{desired_deployment}
use kuberag.Retriever.Apply.{Live}
use kuberag.Retriever.Apply.Effects.{AllSettled, AllSettled-append, WorkloadRemoved}
use kuberag.Retriever.Pass.{withheld, observed, index_ok, judged, store, fetch_health, report}

module _ (p : Platform) (s : Server) (live : Live) where
  -- The server took the status that the object has.
  abbrev pub Stored : Pass Retriever → Type 0
  Stored w =
      Past (update_retriever_status w.object.status)
        (λ h. s.ack h (update_retriever_status w.object.status) ≡ none) w.log

  -- The server told the ready replicas of the Deployment, and what it answered about the VectorIndex.
  abbrev pub Counted : Deployment → ℕ → History → Type 0
  Counted dep ready = Past (read_workload deployments dep.name) (λ h.
      answer s (s.ack h (read_workload deployments dep.name)) (live.ready_replicas h dep.name)
      ≡ found ready)

  abbrev pub Probed : KnowledgeBase → Got (Option VectorIndexHealth) → History → Type 0
  Probed kb index =
      let name = trunc_name p (kb.name ++ codes "-index") in
      Past (read_vector_index name)
        (λ h. index ≡ answer s (s.ack h (read_vector_index name)) (live.index_health h name))

  -- The Secrets of a KnowledgeBase were usable, the objects are settled, and the status tells the
  -- ready replicas that the server gave, judged with the health of the index that it gave.
  pub record Serving (rt : Retriever) (w : Pass Retriever) : Type 0 where
    pub kb : KnowledgeBase
    pub secrets : AllHeld s (checked_refs rt kb) w.log
    pub hash : Text
    pub dep : Deployment
    pub rendered : desired_deployment p rt kb hash ≡ some dep
    pub settled : AllSettled s rt dep w.log
    pub ready : ℕ
    pub counted : Counted dep ready w.log
    pub index : Got (Option VectorIndexHealth)
    pub probed : Probed kb index w.log
    pub status : w.object ≡ judged p ready (index_ok index) (observed ready rt)

  pub data Ends (rt : Retriever) (w : Pass Retriever) : Type 0 where
    serving : Serving rt w → Ends rt w
    withheld_for :
        (reason : Reason) → w.object ≡ withheld p reason rt → WorkloadRemoved s rt w.log → Ends rt w

  -- The pass after the call of an update of the status.
  abbrev told : Pass Retriever → Pass Retriever
  told w = record w { log = update_retriever_status w.object.status ∷ w.log }

  answer_only : (e : Option ApiError) (w : Pass Retriever) → (on_error e fails (pure done) w).1 ≡ w
  answer_only none w = refl
  answer_only (some e) w = refl

  answer_done :
      (e : Option ApiError) (w : Pass Retriever)
      → (on_error e fails (pure done) w).0 ≡ done
      → e ≡ none
  answer_done none w h = refl
  answer_done (some e) w h = cc

  pub store-told : (w : Pass Retriever) → (store p s live w).1 ≡ told w
  unfolding store call
  store-told w = answer_only (s.ack w.log (update_retriever_status w.object.status)) (told w)

  pub store-Stored :
      (w : Pass Retriever) → (store p s live w).0 ≡ done → Stored (store p s live w).1
  unfolding store call
  store-Stored w h =
      let e = s.ack w.log (update_retriever_status w.object.status) in
      subst Stored (sym (answer_only e (told w))) (Past.here (answer_done e (told w) h))

  module _ (kb : KnowledgeBase) (hash : Text) (dep : Deployment) (w : Pass Retriever)
      (rendered : desired_deployment p w.object kb hash ≡ some dep)
      (held : AllHeld s (checked_refs w.object kb) w.log) where
    pub report-Ends :
        (got : Got ℕ)
        → AllSettled s w.object dep w.log
        → ((ready : ℕ) → got ≡ found ready → Counted dep ready w.log)
        → (report p s live kb got w).0 ≡ done
        → Stored (report p s live kb got w).1 × Ends w.object (report p s live kb got w).1
    unfolding report fetch_health
    report-Ends (refused e) settled count h = cc
    report-Ends (found ready) settled count h =
        let name = trunc_name p (kb.name ++ codes "-index") in
        let index =
          answer s (s.ack w.log (read_vector_index name)) (live.index_health w.log name) in
        let u : Pass Retriever = record {
          object = judged p ready (index_ok index) (observed ready w.object);
          log = read_vector_index name ∷ w.log;
        } in
        let calls = update_retriever_status u.object.status ∷ read_vector_index name ∷ [] in
        (
          store-Stored u h,
          subst (Ends w.object) (sym (store-told u)) (
              Ends.serving (record {
                kb = kb;
                secrets = AllHeld-append s (checked_refs w.object kb) calls w.log held;
                hash = hash;
                dep = dep;
                rendered = rendered;
                settled = AllSettled-append s w.object dep calls w.log settled;
                ready = ready;
                counted = Past-append _ _ calls w.log (count ready refl);
                index = index;
                probed = Past.there (Past.here refl);
                status = refl;
              })),
        )
