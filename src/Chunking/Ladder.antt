-- ===== src/Chunking/Ladder.antt =====
-- The auto-tune ladder of nextChunking.
use kuberag.Prelude.{
  ℕ, zero, suc, ◌+◌, ◌/◌, ◌≤◌, ◌<◌, min, ◌≡◌, refl, ap, ◌∙◌, ◌⊎◌, inl, inr, arith,
}
use kuberag.Api.KnowledgeBase.{ChunkingStrategy, ChunkingSpec}
use native.Mathlib.Nat.{zero-add, suc-add}
use kuberag.Chunking.{
  chunk_semantic, chunk_recursive, chunk_fixed, chunk_floor, rotate_strategy, next_chunking,
}

-- Every step of the ladder leaves the overlap at half of the chunk at most, whatever it starts
-- from, and never takes the chunk size below the floor of 300 unless it was below it already.
next_chunking_bounds :
    (c : ChunkingSpec)
    → ((next_chunking c).overlap ≤ (next_chunking c).max_tokens / 2)
      × (min chunk_floor c.max_tokens ≤ (next_chunking c).max_tokens)
unfolding next_chunking
next_chunking_bounds c = ground arith

-- The ladder climbed `k` steps.
abbrev climb : ℕ → ChunkingSpec → ChunkingSpec
climb zero c = c
climb (suc k) c = climb k (next_chunking c)

-- Where a rotation of the strategy starts again.
abbrev restart : ChunkingStrategy → ChunkingSpec
restart s = record { strategy = s; max_tokens = 800; overlap = 80 }

-- The three kinds of step: the strategy rotates, or the chunk shrinks, or the overlap grows by 40.
next_chunking-cases :
    (c : ChunkingSpec)
    → (next_chunking c ≡ restart (rotate_strategy c.strategy))
      ⊎ ((next_chunking c).strategy ≡ c.strategy) × ((next_chunking c).max_tokens < c.max_tokens)
      ⊎ ((next_chunking c).strategy ≡ c.strategy)
        × ((next_chunking c).max_tokens ≡ c.max_tokens)
        × ((next_chunking c).overlap ≡ c.overlap + 40)
        × (c.overlap + 40 ≤ c.max_tokens)
unfolding next_chunking
next_chunking-cases c = grind arith

abbrev Rotates : ChunkingSpec → Type 0
Rotates c = (k : ℕ) × (climb k c ≡ restart (rotate_strategy c.strategy))

Rotates-step :
    (c : ChunkingSpec)
    → (next_chunking c).strategy ≡ c.strategy
    → Rotates (next_chunking c)
    → Rotates c
Rotates-step c same (k, e) = (suc k, e ∙ ap (λ s. restart (rotate_strategy s)) same)

-- By induction on a bound of the chunk size, and inside it on the room left for the overlap.
climb_within :
    (m g : ℕ) (c : ChunkingSpec) → c.max_tokens ≤ m → c.max_tokens ≤ c.overlap + g → Rotates c
climb_within zero g c hm hg = elim (next_chunking-cases c) [
  | inl turn ↦ (1, turn)
  | inr (inl (_, less)) ↦ absurd (omega arith)
  | inr (inr (_, _, _, fits)) ↦ absurd (omega arith)
]
climb_within (suc m) zero c hm hg = elim (next_chunking-cases c) [
  | inl turn ↦ (1, turn)
  | inr (inl (same, less)) ↦
      Rotates-step c same
        (climb_within m (next_chunking c).max_tokens (next_chunking c) (omega arith) (omega arith))
  | inr (inr (_, _, _, fits)) ↦ absurd (omega arith)
]
climb_within (suc m) (suc g) c hm hg = elim (next_chunking-cases c) [
  | inl turn ↦ (1, turn)
  | inr (inl (same, less)) ↦
      Rotates-step c same
        (climb_within m (next_chunking c).max_tokens (next_chunking c) (omega arith) (omega arith))
  | inr (inr (same, size, more, fits)) ↦
      Rotates-step c same (climb_within (suc m) g (next_chunking c) (omega arith) (omega arith))
]

-- From any chunking at all the ladder comes, after finitely many steps, to the next strategy at
-- its default size and overlap: it never stays for ever among the sizes of one strategy.
climb-rotates : (c : ChunkingSpec) → (k : ℕ) × (climb k c ≡ restart (rotate_strategy c.strategy))
climb-rotates c = climb_within c.max_tokens c.max_tokens c (omega arith) (omega arith)

-- From the defaults a strategy is left at the 21st step; the step before it still has the strategy,
-- at the floor of the chunk size.
climb-restart :
    (s : ChunkingStrategy)
    → (climb 21 (restart s) ≡ restart (rotate_strategy s))
      × (climb 20 (restart s) ≡ record { strategy = s; max_tokens = 300; overlap = 140 })
unfolding next_chunking
climb-restart s = (refl, refl)

climb-add : (j k : ℕ) (c : ChunkingSpec) → climb (j + k) c ≡ climb k (climb j c)
climb-add zero k c = rw zero-add
climb-add (suc j) k c = rw suc-add (climb-add j k (next_chunking c))

-- After 63 steps from the defaults of one of the three strategies the ladder has tried each of
-- them at its defaults, in the order of rotateStrategy, and is back where it began.
pub climb_cycle :
    let start = restart chunk_semantic in
    (climb 21 start ≡ restart chunk_recursive)
    × (climb 42 start ≡ restart chunk_fixed)
    × (climb 63 start ≡ start)
unfolding rotate_strategy
climb_cycle =
    let first : climb 21 (restart chunk_semantic) ≡ restart chunk_recursive =
      (climb-restart chunk_semantic).0 in
    let second : climb 21 (restart chunk_recursive) ≡ restart chunk_fixed =
      (climb-restart chunk_recursive).0 in
    let third : climb 21 (restart chunk_fixed) ≡ restart chunk_semantic =
      (climb-restart chunk_fixed).0 in
    (
      first,
      climb-add 21 21 _ ∙ ap (climb 21) first ∙ second,
      climb-add 42 21 _ ∙ ap (climb 21) (climb-add 21 21 _ ∙ ap (climb 21) first ∙ second) ∙ third,
    )
