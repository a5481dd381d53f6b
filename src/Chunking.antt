-- ===== src/Chunking.antt =====
-- The pure chunking helpers of internal/controller/decision_helpers.go.
pub mod Ladder
use kuberag.Prelude.{
  ℕ, ◌+◌, ◌-◌, ◌/◌, codes, text_eq, none, some, ◌&&◌, leb, ltb, ◌==◌, if◌then◌else◌, is_empty, Bool,
}
use kuberag.Api.KnowledgeBase.{ChunkingStrategy, ChunkingSpec, KnowledgeBase}

abbrev pub chunk_semantic : ChunkingStrategy
chunk_semantic = codes "semantic"

abbrev pub chunk_recursive : ChunkingStrategy
chunk_recursive = codes "recursive"

abbrev pub chunk_fixed : ChunkingStrategy
chunk_fixed = codes "fixed"

-- Go's `==` on the struct.
unfoldable pub chunking_eq : ChunkingSpec → ChunkingSpec → Bool
chunking_eq c d =
    text_eq c.strategy d.strategy && c.max_tokens == d.max_tokens && c.overlap == d.overlap

unfoldable pub spec_chunking : KnowledgeBase → ChunkingSpec
spec_chunking kb =
    let c = kb.spec.chunking in
    record {
      strategy = if is_empty c.strategy then chunk_semantic else c.strategy;
      max_tokens = if c.max_tokens == 0 then 800 else c.max_tokens;
      overlap = if c.overlap == 0 then 80 else c.overlap;
    }

unfoldable pub effective_chunking : KnowledgeBase → ChunkingSpec
effective_chunking kb = elim kb.status.effective_chunking [ some c ↦ c | none ↦ spec_chunking kb ]

abbrev pub chunk_floor : ℕ
chunk_floor = 300

unfoldable pub rotate_strategy : ChunkingStrategy → ChunkingStrategy
unfolding text_eq
rotate_strategy s =
    if text_eq s chunk_semantic
    then chunk_recursive
    else if text_eq s chunk_recursive
    then chunk_fixed
    else chunk_semantic

-- The body of `if c.Overlap > c.MaxTokens/2`.
shrink : ChunkingSpec → ChunkingSpec
shrink c =
    let m : ℕ =
      if ltb chunk_floor c.max_tokens
      then if ltb (c.max_tokens - 200) chunk_floor then chunk_floor else c.max_tokens - 200
      else c.max_tokens in
    record c { max_tokens = m; overlap = m / 5 }

unfoldable pub next_chunking : ChunkingSpec → ChunkingSpec
unfolding shrink
next_chunking c =
    if leb c.max_tokens chunk_floor && ltb (c.max_tokens / 2) (c.overlap + 40)
    then record { strategy = rotate_strategy c.strategy; max_tokens = 800; overlap = 80 }
    else if ltb (c.max_tokens / 2) (c.overlap + 40)
    then shrink c
    else record c { overlap = c.overlap + 40 }
