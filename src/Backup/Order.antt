-- ===== src/Backup/Order.antt =====
-- The order of the last calls of a pass that completes a Backup.
use kuberag.Prelude.{
  Bool-cases, Text, ◌≡◌, sym, ap, ◌∙◌, ◌≢◌, inl, inr, Option, none, some, [], ◌∷◌, arith,
}
use mathlib.Core.Path.{subst}
use kuberag.Platform.{Platform}
use kuberag.Api.KnowledgeBase.{KnowledgeBase, result_read_failed, backup_failed}
use kuberag.Api.Snapshots.{Backup, BackupResult, completed}
use kuberag.Api.Jobs.{Job}
use kuberag.Names.{result_config_map_name, spec_config_map_name}
use kuberag.Cluster.{
  Server, Pass, M, History, Outcome, call, attempt, time_now, fetch_key, fetch_job, Got, found,
  refused, delete_config_map, update_backup_status,
}
use kuberag.Decisions.{is_complete, is_failed}
use kuberag.Backup.{
  enter, with_active, store, fail, conclude, collect, forget_job, watch, work_on, advance,
  fetch_knowledge_base, proceed, reconcile,
}
use kuberag.Backup.Lifecycle.{fail-Unfinished, start-Unfinished, reconcile_or_proceed}

module _ (p : Platform) (s : Server) where
  -- The last three calls, the last of them first: the status comes after the deletions.
  abbrev pub DropsFirst : Pass Backup → Type 0
  DropsFirst w =
      (job : Text) × (rest : History) × (w.log
        ≡ update_backup_status w.object.status
          ∷ delete_config_map (spec_config_map_name p job)
          ∷ delete_config_map (result_config_map_name p job)
          ∷ rest)

  abbrev Completing : M Backup Outcome → Type 0
  Completing m =
      (w : Pass Backup)
      → w.object.status.phase ≢ completed
      → (m w).1.object.status.phase ≡ completed
      → DropsFirst (m w).1

  conclude-DropsFirst : (job : Text) (r : Option BackupResult) → Completing (conclude p s job r)
  unfolding conclude
  conclude-DropsFirst job none w before after =
      absurd (fail-Unfinished p s result_read_failed w before after)
  conclude-DropsFirst job (some r) w before after =
      (job, w.log, unfold time_now attempt store call in ground arith)

  watch_found-DropsFirst : (job : Job) → Completing (watch p s (found job))
  unfolding watch
  watch_found-DropsFirst job w before after = elim (Bool-cases (is_failed job)) [
    | inl bad ↦ elim (Bool-cases (is_complete job)) [
      | inl good ↦ absurd (fail-Unfinished p s backup_failed w before (rw (bad, good) at after))
      | inr still ↦ absurd (fail-Unfinished p s backup_failed w before (rw (bad, still) at after))
    ]
    | inr fine ↦ elim (Bool-cases (is_complete job)) [
      | inl good ↦
          rw (fine, good)
            (unfold collect fetch_key in
              conclude-DropsFirst job.name _ _ before (rw (fine, good) at after))
      | inr still ↦ absurd (before (rw (fine, still) at after))
    ]
  ]

  watch-DropsFirst : (got : Got Job) → Completing (watch p s got)
  watch-DropsFirst (found job) w before after = watch_found-DropsFirst job w before after
  watch-DropsFirst (refused e) w before after = absurd (gone after)
    where
      gone : (watch p s (refused e) w).1.object.status.phase ≢ completed
      gone = unfold watch forget_job with_active store call in ground arith

  work_on-DropsFirst : (name : Text) (kb : KnowledgeBase) → Completing (work_on p s name kb)
  unfolding work_on fetch_job
  work_on-DropsFirst [] kb w before after = absurd (start-Unfinished p s kb w before after)
  work_on-DropsFirst (c ∷ name) kb w before after = watch-DropsFirst _ _ before after

  advance-DropsFirst : (got : Got KnowledgeBase) → Completing (advance p s got)
  unfolding advance
  advance-DropsFirst (found kb) w before after =
      work_on-DropsFirst w.object.status.active_job kb w before after
  advance-DropsFirst (refused e) w before after = absurd (missing after)
    where
      missing : (advance p s (refused e) w).1.object.status.phase ≢ completed
      missing = unfold fail enter store call in ground arith

  proceed-DropsFirst : Completing (proceed p s)
  unfolding proceed fetch_knowledge_base
  proceed-DropsFirst w before after = advance-DropsFirst _ _ before after

  -- A pass that completes a Backup ends with the deletion of a Job's result ConfigMap, then of its spec
  -- ConfigMap, and only then with the update of the status, whatever the server answers to them.
  pub reconcile-DropsFirst :
      (w : Pass Backup)
      → w.object.status.phase ≢ completed
      → (reconcile p s w).1.object.status.phase ≡ completed
      → DropsFirst (reconcile p s w).1
  reconcile-DropsFirst w before after = elim (reconcile_or_proceed p s w) [
    | inl same ↦ absurd (before (sym same ∙ after))
    | inr on ↦
        subst (λ out. DropsFirst out.1) (sym on)
          (proceed-DropsFirst w before (sym (ap (λ out. out.1.object.status.phase) on) ∙ after))
  ]
