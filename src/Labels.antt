-- ===== src/Labels.antt =====
-- The labels of a Job in internal/controller/decision_helpers.go, and what they use of fmt and
-- strings. A sign in front of a number and an overflow of `int` are not modelled by `sscanf_d`: the
-- CRD keeps both numbers at 0 or more, and the operator writes the label itself.
pub mod RoundTrip
use kuberag.Prelude.{
  ltb, leb, ◌==◌, if◌then◌else◌, is_empty, text_eq, Text, ℕ, zero, suc, ◌+◌, ◌-◌, ◌*◌, ◌/◌, ◌%◌,
  Bool, true, false, not, ◌&&◌, ◌||◌, Option, none, some, [], ◌∷◌, ◌++◌, map,
}
use mathlib.Core.Option
use kuberag.Api.KnowledgeBase.{ChunkingSpec}
use kuberag.Api.Jobs.{Job, JobType, ingest}

abbrev pub is_digit : ℕ → Bool
is_digit c = leb b'0' c && leb c b'9'

-- `%d` of fmt. A number has fewer digits than `suc` of itself rounds.
pub digits : ℕ → ℕ → Text
digits zero n = []
digits (suc f) n = elim (ltb n 10) [
  | true ↦ (b'0' + n) ∷ []
  | false ↦ digits f (n / 10) ++ (b'0' + n % 10) ∷ []
]

unfoldable pub sprintf_d : ℕ → Text
unfolding digits
sprintf_d n = digits (suc n) n

scan : ℕ → Text → ℕ
scan acc [] = acc
scan acc (c ∷ s) = let rest = scan (acc * 10 + (c - b'0')) s in if is_digit c then rest else acc

-- `fmt.Sscanf(s, "%d", &x)` for an `x` that is 0: the number of the leading digits, or 0.
unfoldable pub sscanf_d : Text → ℕ
unfolding scan
sscanf_d s = scan 0 s

-- `strings.Cut`: what stands before and after the first separator.
unfoldable pub cut : ℕ → Text → Option (Text × Text)
cut sep [] = none
cut sep (c ∷ s) =
    let rest = Option.map {A = Text × Text} (λ r. (c ∷ r.0, r.1)) (cut sep s) in
    if c == sep then some ([], s) else rest

-- `strings.SplitN(s, sep, 3)` has three parts where the separator occurs twice.
unfoldable pub split3 : ℕ → Text → Option (Text × Text × Text)
split3 sep s = elim (cut sep s) [
  | none ↦ none
  | some (a, t) ↦ elim (cut sep t) [ none ↦ none | some (b, c) ↦ some (a, b, c) ]
]

unfoldable pub chunking_label : ChunkingSpec → Text
chunking_label c = c.strategy ++ b'.' ∷ (sprintf_d c.max_tokens ++ b'.' ∷ sprintf_d c.overlap)

parse_label : Text → ChunkingSpec → ChunkingSpec
parse_label label fallback = elim (split3 b'.' label) [
  | none ↦ fallback
  | some (a, b, c) ↦
      if is_empty a
      then fallback
      else record { strategy = a; max_tokens = sscanf_d b; overlap = sscanf_d c }
]

unfoldable pub job_effective_chunking : Job → ChunkingSpec → ChunkingSpec
unfolding parse_label
job_effective_chunking j fallback =
    if is_empty j.labels.chunking then fallback else parse_label j.labels.chunking fallback

unfoldable pub job_spec_hash : Job → Text → Text
job_spec_hash j fallback = if is_empty j.labels.spec_hash then fallback else j.labels.spec_hash

unfoldable pub job_secrets_hash : Job → Text → Text
job_secrets_hash j fallback =
    if is_empty j.labels.secrets_hash then fallback else j.labels.secrets_hash

unfoldable pub is_ingest : JobType → Bool
is_ingest ingest = true
is_ingest _ = false

unfoldable pub active_ingest_is_stale : Job → Text → Text → Text → Text → Bool
unfolding is_ingest
active_ingest_is_stale j desired desired_secrets observed observed_secrets =
    is_ingest j.labels.job_type
    && (not (text_eq (job_spec_hash j observed) desired)
        || not (text_eq (job_secrets_hash j observed_secrets) desired_secrets))
