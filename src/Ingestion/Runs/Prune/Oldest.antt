-- ===== src/Ingestion/Runs/Prune/Oldest.antt =====
-- Which runs the pruning leaves.
use kuberag.Prelude.{
  ltb, leb, leb→le, Bool-cases, length, take, drop, ℕ, zero, suc, ◌-◌, ◌≤◌, ◌<◌, min, ◌≡◌, refl,
  sym, ap, inl, inr, false, List, [], ◌∷◌, ◌++◌, arith,
}
use mathlib.Core.List.{Perm}
use mathlib.Core.List.Perm
use mathlib.Core.Path.{subst}
use kuberag.Api.KnowledgeBase.{Time}
use kuberag.Api.Runs.{IngestionRun}
use kuberag.Ingestion.Runs.Prune.{terminal_runs, insert_run, sort_runs, kept_runs, pruned}

insert_run-Perm : (r : IngestionRun) (xs : List IngestionRun) → Perm (insert_run r xs) (r ∷ xs)
unfolding insert_run
insert_run-Perm r [] = Perm.refl _
insert_run-Perm r (x ∷ xs) =
    let deeper = Perm.trans (Perm.cons x (insert_run-Perm r xs)) (Perm.swap _ _ _) in
    elim (Bool-cases (ltb x.creation_timestamp r.creation_timestamp)) [
      | inl older ↦ rw older deeper
      | inr newer ↦ rw newer (Perm.refl _)
    ]

sort_runs-Perm : (xs : List IngestionRun) → Perm (sort_runs xs) xs
unfolding sort_runs
sort_runs-Perm [] = Perm.refl _
sort_runs-Perm (r ∷ rs) =
    Perm.trans (insert_run-Perm r (sort_runs rs)) (Perm.cons r (sort_runs-Perm rs))

-- No run is older than the time.
abbrev pub AllFrom : Time → List IngestionRun → Type 0
AllFrom t [] = Unit
AllFrom t (r ∷ rs) = (t ≤ r.creation_timestamp) × AllFrom t rs

Ordered : List IngestionRun → Type 0
Ordered [] = Unit
Ordered (r ∷ rs) = AllFrom r.creation_timestamp rs × Ordered rs

AllFrom-insert_run :
    (t : Time) (r : IngestionRun) (xs : List IngestionRun)
    → t ≤ r.creation_timestamp
    → AllFrom t xs
    → AllFrom t (insert_run r xs)
unfolding insert_run
AllFrom-insert_run t r [] l a = (l, tt)
AllFrom-insert_run t r (x ∷ xs) l a = ground (arith, AllFrom-insert_run t r xs)

AllFrom-weaken : (t u : Time) (xs : List IngestionRun) → t ≤ u → AllFrom u xs → AllFrom t xs
AllFrom-weaken t u [] l a = tt
AllFrom-weaken t u (x ∷ xs) l a = ground (arith, AllFrom-weaken t u xs)

insert_run-Ordered :
    (r : IngestionRun) (xs : List IngestionRun) → Ordered xs → Ordered (insert_run r xs)
unfolding insert_run Ordered
insert_run-Ordered r [] o = (tt, tt)
insert_run-Ordered r (x ∷ xs) o = ground (
  arith,
  insert_run-Ordered r xs,
  AllFrom-insert_run x.creation_timestamp r xs,
  AllFrom-weaken r.creation_timestamp x.creation_timestamp xs,
)

sort_runs-Ordered : (xs : List IngestionRun) → Ordered (sort_runs xs)
unfolding sort_runs
sort_runs-Ordered [] = unfold Ordered in tt
sort_runs-Ordered (r ∷ rs) = insert_run-Ordered r (sort_runs rs) (sort_runs-Ordered rs)

-- Every run of the first list is at most as new as every run of the second.
abbrev pub AllUpTo : List IngestionRun → List IngestionRun → Type 0
AllUpTo [] ks = Unit
AllUpTo (r ∷ rs) ks = AllFrom r.creation_timestamp ks × AllUpTo rs ks

AllFrom-drop : (t : Time) (n : ℕ) (xs : List IngestionRun) → AllFrom t xs → AllFrom t (drop n xs)
AllFrom-drop t zero xs a = a
AllFrom-drop t (suc n) [] a = tt
AllFrom-drop t (suc n) (x ∷ xs) a = AllFrom-drop t n xs a.1

take-AllUpTo : (n : ℕ) (xs : List IngestionRun) → Ordered xs → AllUpTo (take n xs) (drop n xs)
unfolding Ordered
take-AllUpTo zero xs o = tt
take-AllUpTo (suc n) [] o = tt
take-AllUpTo (suc n) (x ∷ xs) (first, rest) =
    (AllFrom-drop x.creation_timestamp n xs first, take-AllUpTo n xs rest)

take-append-drop : (n : ℕ) (xs : List IngestionRun) → take n xs ++ drop n xs ≡ xs
take-append-drop zero xs = refl
take-append-drop (suc n) [] = refl
take-append-drop (suc n) (x ∷ xs) = ap (λ l. x ∷ l) (take-append-drop n xs)

length-drop : (n : ℕ) (xs : List IngestionRun) → length (drop n xs) ≡ length xs - n
length-drop zero xs = omega arith
length-drop (suc n) [] = omega arith
length-drop (suc n) (x ∷ xs) = omega (arith, length-drop n xs)

length-insert_run :
    (r : IngestionRun) (xs : List IngestionRun) → length (insert_run r xs) ≡ suc (length xs)
unfolding insert_run
length-insert_run r [] = refl
length-insert_run r (x ∷ xs) = ground (arith, length-insert_run r xs)

length-sort_runs : (xs : List IngestionRun) → length (sort_runs xs) ≡ length xs
unfolding sort_runs
length-sort_runs [] = refl
length-sort_runs (r ∷ rs) = omega (arith, length-insert_run r (sort_runs rs), length-sort_runs rs)

-- What a pruning makes of the runs that have ended.
pub record IsSplit (deleted kept ended : List IngestionRun) : Type 0 where
  pub whole : Perm (deleted ++ kept) ended
  pub count : length kept ≡ min kept_runs (length ended)
  pub oldest : AllUpTo deleted kept

-- The runs that have ended are the pruned ones and others, together and with their repeats: of the
-- others there are ten, or all where there are fewer, and every pruned run was created no later than
-- every one of the others.
pub pruned-IsSplit :
    (runs : List IngestionRun)
    → (kept : List IngestionRun) × IsSplit (pruned runs) kept (terminal_runs runs)
pruned-IsSplit runs = elim (Bool-cases (leb (length (terminal_runs runs)) kept_runs)) [
  | inl few ↦ (
    terminal_runs runs,
    unfold pruned in
        rw few (record {
          whole = Perm.refl _;
          count = omega (arith, leb→le (length (terminal_runs runs)) kept_runs few);
          oldest = tt;
        }),
  )
  | inr many ↦
      let ended = terminal_runs runs in
      let n = length ended - kept_runs in
      (
        drop n (sort_runs ended),
        unfold pruned in
            rw many (record {
              whole =
                  subst (λ l. Perm l ended) (sym (take-append-drop n (sort_runs ended)))
                    (sort_runs-Perm ended);
              count =
                  omega (
                    arith,
                    length-drop n (sort_runs ended),
                    length-sort_runs ended,
                    over ended many,
                  );
              oldest = take-AllUpTo n (sort_runs ended) (sort_runs-Ordered ended);
            }),
      )
]
  where
    over : (xs : List IngestionRun) → leb (length xs) kept_runs ≡ false → kept_runs < length xs
    over xs h = ground arith
