-- ===== src/Stages.antt =====
-- The life of a Backup or Restore, apart from how a pass works: it waits, then works on
-- one Job, and ends for good. BackupPhase and RestorePhase of api/v1alpha1 with status.activeJob.
use kuberag.Prelude.{Text, ◌≡◌, refl, Bool, true, false, [], ◌∷◌}
use mathlib.Core.Path.{subst}
use kuberag.Api.Snapshots.{SnapshotPhase, completed}

pub data Stage : Type 0 where
  waiting : Stage
  working : Text → Stage
  -- With success or without.
  ended : Bool → Stage

-- A Job by its name; "" is none.
abbrev pub job_stage : Text → Stage
job_stage [] = waiting
job_stage (c ∷ name) = working (c ∷ name)

-- The stage that a status stands for.
abbrev pub stage_of : SnapshotPhase → Text → Stage
stage_of completed job = ended true
stage_of SnapshotPhase.failed job = ended false
stage_of _ job = job_stage job

-- The steps that are allowed: success comes from a Job alone, one Job is not swapped for another,
-- and nothing leads out of an end.
pub data Moves (a b : Stage) : Type 0 where
  stays : b ≡ a → Moves a b
  starts : (job : Text) → a ≡ waiting → b ≡ job_stage job → Moves a b
  loses : (job : Text) → a ≡ working job → b ≡ waiting → Moves a b
  succeeds : (job : Text) → a ≡ working job → b ≡ ended true → Moves a b
  fails : (job : Text) → a ≡ working job → b ≡ ended false → Moves a b
  rejects : a ≡ waiting → b ≡ ended false → Moves a b

pub data Reach (a : Stage) : Stage → Type 0 where
  here : Reach a a
  next : {b c : Stage} → Reach a b → Moves b c → Reach a c

Moves-ended : (ok : Bool) (b : Stage) → Moves (ended ok) b → b ≡ ended ok
Moves-ended ok b (stays e) = e
Moves-ended ok b (starts job e f) = cc
Moves-ended ok b (loses job e f) = cc
Moves-ended ok b (succeeds job e f) = cc
Moves-ended ok b (fails job e f) = cc
Moves-ended ok b (rejects e f) = cc

pub Reach-ended : (ok : Bool) {b : Stage} → Reach (ended ok) b → b ≡ ended ok
Reach-ended ok here = refl
Reach-ended ok (next {b} {c} r m) = Moves-ended ok c (subst (λ x. Moves x c) (Reach-ended ok r) m)
