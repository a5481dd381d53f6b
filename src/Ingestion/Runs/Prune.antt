-- ===== src/Ingestion/Runs/Prune.antt =====
-- Which runs pruneIngestionRuns deletes.
pub mod Oldest
use kuberag.Prelude.{
  ltb, leb, if◌then◌else◌, length, take, ℕ, ◌-◌, Bool, true, false, List, [], ◌∷◌,
}
use kuberag.Api.Runs.{IngestionRun, RunPhase}

pub is_terminal : RunPhase → Bool
is_terminal RunPhase.succeeded = true
is_terminal RunPhase.failed = true
is_terminal _ = false

pub terminal_runs : List IngestionRun → List IngestionRun
unfolding is_terminal
terminal_runs [] = []
terminal_runs (r ∷ rs) =
    let rest = terminal_runs rs in if is_terminal r.status.phase then r ∷ rest else rest

insert_run : IngestionRun → List IngestionRun → List IngestionRun
insert_run r [] = r ∷ []
insert_run r (x ∷ xs) =
    if ltb x.creation_timestamp r.creation_timestamp then x ∷ insert_run r xs else r ∷ x ∷ xs

-- sort.Slice by creation timestamp, oldest first. It leaves open the order of runs of one time,
-- which is fixed here.
pub sort_runs : List IngestionRun → List IngestionRun
unfolding insert_run
sort_runs [] = []
sort_runs (r ∷ rs) = insert_run r (sort_runs rs)

abbrev pub kept_runs : ℕ
kept_runs = 10

unfoldable pub pruned : List IngestionRun → List IngestionRun
unfolding terminal_runs sort_runs
pruned runs =
    let terminal = terminal_runs runs in
    if leb (length terminal) kept_runs
    then []
    else take (length terminal - kept_runs) (sort_runs terminal)
