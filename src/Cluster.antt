-- ===== src/Cluster.antt =====
-- The API server, which the controllers call and do not implement: its answer to a call is any
-- function of the calls made before it. A controller's pass threads the object in memory and the
-- history of the calls; other clients act between any two calls, so an answer need not fit the
-- calls of this pass.
use kuberag.Prelude.{
  contains, Text, codes, ℕ, ◌*◌, ◌%◌, ◌^◌, ◌≡◌, Bool, true, false, ◌||◌, Option, none, some, List,
  ◌∷◌, arith,
}
use kuberag.Api.Snapshots.{Backup, BackupStatus, RestoreStatus}
use kuberag.Api.KnowledgeBase.{KnowledgeBase, Time, KnowledgeBaseStatus, Reason, VectorStoreSpec}
use kuberag.Api.Jobs.{Job}
use kuberag.Api.Runs.{IngestionRun, IngestionRunStatus}
use kuberag.Api.Retriever.{RetrieverStatus}
use kuberag.Api.Workloads.{Workload, WorkloadKind}

pub data ApiError : Type 0 where
  not_found already_exists conflict : ApiError
  forbidden : Text → ApiError
  other : Text → ApiError

-- One request. A ConfigMap is named, with its `spec.json` where it has one; a role has the names
-- of the ConfigMaps that its rule covers, and no rule for the empty list.
pub data Call : Type 0 where
  get_knowledge_base list_runs : Call
  get_job get_config_map get_run get_secret get_service_account get_role get_role_binding :
      Text → Call
  create_spec_config_map : Text → Text → Call
  create_config_map delete_config_map : Text → Call
  create_job : Job → Call
  delete_job : Text → Call
  create_run : IngestionRun → Call
  update_run_status : Text → IngestionRunStatus → Call
  delete_run : Text → Call
  update_status : KnowledgeBaseStatus → Call
  update_finalizer : Bool → Call
  create_service_account update_service_account : Text → Call
  create_role update_role : Text → List Text → Call
  create_role_binding update_role_binding : Text → Call
  set_controller_reference : Text → Call
  create_or_update_vector_index : Text → VectorStoreSpec → ℕ → Call
  event : Bool → Reason → Call
  read_knowledge_base read_backup : Text → Call
  update_backup_status : BackupStatus → Call
  update_restore_status : RestoreStatus → Call
  read_vector_index : Text → Call
  -- The objects of a Retriever.
  read_workload delete_workload : WorkloadKind → Text → Call
  create_workload update_workload : Workload → Call
  update_retriever_status : RetrieverStatus → Call

abbrev pub History : Type 0
History = List Call

-- `ack` is `none` where the call succeeds; the fields below it are what a read then returns.
pub record Server : Type 0 where
  pub ack : History → Call → Option ApiError
  pub job : History → Text → Job
  -- A ConfigMap's name and key.
  pub config_map : History → Text → Text → Option Text
  pub secret : History → Text → Text → Option Text
  pub run : History → Text → IngestionRun
  pub runs : History → List IngestionRun
  pub role : History → Text → List Text
  pub knowledge_base : History → Text → KnowledgeBase
  pub backup : History → Text → Backup
  -- `time.Now()`.
  pub now : History → Time
  -- The attempts of `retry.DefaultRetry` after the first.
  pub retry_steps : ℕ

pub record Pass (S : Type 0) : Type 0 where
  pub object : S
  pub log : History

abbrev pub M : Type 0 → Type 0 → Type 0
M S A = Pass S → A × Pass S

abbrev pub pure : {S A : Type 0} → A → M S A
pure a w = (a, w)

infixl 5 ◌>>=◌ ◌>>◌
abbrev pub ◌>>=◌ : {S A B : Type 0} → M S A → (A → M S B) → M S B
◌>>=◌ m f w = let (a, w') = m w in f a w'

abbrev pub ◌>>◌ : {S A B : Type 0} → M S A → M S B → M S B
◌>>◌ m k w = let (a, w') = m w in k w'

-- Not a method of the source: a read of the object in memory, and an assignment to it.
abbrev pub get : {S : Type 0} → M S S
get w = (w.object, w)

abbrev pub modify : {S : Type 0} → (S → S) → M S (Unit {0})
modify f w = (tt, record w { object = f w.object })

-- `ctrl.Result` with the error that a pass returns.
pub data Outcome : Type 0 where
  done requeue : Outcome
  requeue_after : ℕ → Outcome
  failed : ApiError → Outcome

pub data Got {ℓ} (A : Type ℓ) : Type ℓ where
  found : A → Got A
  refused : ApiError → Got A

abbrev pub second : ℕ
second = 1000000000

abbrev pub minute : ℕ
minute = 60 * second

-- The bits of `time.Duration(n) * time.Second`, a product in 64 bits; from 2 ^ 63 on they stand for a
-- negative duration.
unfoldable pub seconds : ℕ → ℕ
seconds n = (n * second) % 2 ^ 64

-- apierrors.IsForbidden with the message of a quota or a limit range.
unfoldable pub is_quota_exceeded : ApiError → Bool
is_quota_exceeded (forbidden msg) =
    contains msg (codes "exceeded quota") || contains msg (codes "exceeded limitrange")
is_quota_exceeded _ = false

unfoldable pub is_already_exists : ApiError → Bool
is_already_exists already_exists = true
is_already_exists _ = false

unfoldable pub is_not_found : ApiError → Bool
is_not_found not_found = true
is_not_found _ = false

-- The error that is left of a creation whose AlreadyExists is swallowed.
unfoldable pub ignore_already_exists : Option ApiError → Option ApiError
ignore_already_exists (some already_exists) = none
ignore_already_exists e = e

-- `if err != nil { … }`, and the code behind it.
abbrev pub on_error : {S A E : Type 0} → Option E → (E → M S A) → M S A → M S A
on_error none handle rest = rest
on_error (some e) handle rest = handle e

abbrev pub fails : {S : Type 0} → ApiError → M S Outcome
fails e = pure (Outcome.failed e)

module _ (s : Server) where
  unfoldable pub call : {S : Type 0} → Call → M S (Option ApiError)
  call c w = (s.ack w.log c, record w { log = c ∷ w.log })

  abbrev pub answer : {A : Type 0} → Option ApiError → A → Got A
  answer none a = found a
  answer (some e) a = refused e

  pub answer-found :
      {A : Type 0} (e : Option ApiError) (a b : A) → answer e a ≡ found b → (e ≡ none) × (a ≡ b)
  answer-found none a b h = ground arith
  answer-found (some e) a b h = ground arith

  pub answer-refused :
      {A : Type 0} (r : Option ApiError) (a : A) {e : ApiError}
      → answer r a ≡ refused e
      → r ≡ some e
  answer-refused none a h = cc
  answer-refused (some x) a h = ground arith

  unfoldable pub fetch_job : {S : Type 0} → Text → M S (Got Job)
  fetch_job name w = (
    answer (s.ack w.log (get_job name)) (s.job w.log name),
    record w { log = get_job name ∷ w.log },
  )

  -- The value under a key of a ConfigMap, `none` where the key is missing.
  unfoldable pub fetch_key : {S : Type 0} → Text → Text → M S (Got (Option Text))
  fetch_key name key w = (
    answer (s.ack w.log (get_config_map name)) (s.config_map w.log name key),
    record w { log = get_config_map name ∷ w.log },
  )

  unfoldable pub time_now : {S : Type 0} → M S Time
  time_now w = (s.now w.log, w)

  -- A call whose error the code drops.
  unfoldable pub attempt : {S : Type 0} → Call → M S (Unit {0})
  attempt c w = (tt, record w { log = c ∷ w.log })
