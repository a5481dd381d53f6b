-- ===== src/VectorIndex/Health/Probing.antt =====
-- What Qdrant has told of a collection that a pass finds healthy.
use kuberag.Prelude.{
  Bool-cases, Option-cases, Text, codes, ℕ, ◌<◌, ◌≡◌, sym, ap, ◌∙◌, ◌≢◌, inl, inr, Option, none,
  some, ◌++◌, arith,
}
use kuberag.Platform.{Platform}
use mathlib.Core.Path.{subst}
use kuberag.Api.KnowledgeBase.{qdrant, Time}
use kuberag.Cluster.{ApiError}
use kuberag.VectorIndex.{
  collection_of, VectorIndex, healthy, ProbeResult, Stores, probe_store, probe_qdrant, ask_qdrant,
  judge_qdrant, Credential, refused, sends,
}
use kuberag.VectorIndex.Cache.{ProbeCache, cached_probe-missed, cache_key, fresh_entry}
use kuberag.VectorIndex.Health.{Clock, is_healthy, is_zero, refine, report, observe, reconcile}

-- An answer 200 of Qdrant, whose body tells the points and the size of the vectors that a result has,
-- and that size is the expected one, where both are given.
pub record Answered (s : Stores) (expected : ℕ) (answer : Option (ℕ × Text)) (r : ProbeResult)
    : Type 0 where
  pub text : Text
  pub points : ℕ
  pub status_ok : answer ≡ some (200, text)
  pub read : s.qdrant_body text ≡ some (points, r.dimension)
  pub told : r.points ≡ some points
  pub fitting : 0 < expected → 0 < r.dimension → r.dimension ≡ expected

judge_qdrant-Answered :
    (s : Stores) (expected : ℕ) (answer : Option (ℕ × Text))
    → (judge_qdrant s expected answer).health ≡ healthy
    → Answered s expected answer (judge_qdrant s expected answer)
unfolding judge_qdrant
judge_qdrant-Answered s expected none h = absurd (ground arith)
judge_qdrant-Answered s expected (some (code, text)) h = elim (Option-cases (s.qdrant_body text)) [
  | inl e ↦ absurd (ground arith)
  | inr ((points, dim), e) ↦ record {
    text = text;
    points = points;
    status_ok = ground arith;
    read = ground arith;
    told = ground arith;
    fitting = ground arith;
  }
]

-- The GET of a URL was answered so.
pub record Asked (s : Stores) (url : Text) (expected : ℕ) (r : ProbeResult) : Type 0 where
  pub key : Option Text
  pub answered : Answered s expected (s.http_get url key) r

ask_qdrant-Asked :
    (s : Stores) (url : Text) (expected : ℕ) (c : Credential)
    → (ask_qdrant s url expected c).health ≡ healthy
    → Asked s url expected (ask_qdrant s url expected c)
unfolding ask_qdrant
ask_qdrant-Asked s url expected refused h = absurd (ground arith)
ask_qdrant-Asked s url expected (sends key) h = record {
  key = key;
  answered = judge_qdrant-Answered s expected (s.http_get url key) h;
}

abbrev pub collection_url : VectorIndex → Text
collection_url vi = vi.spec.store.endpoint ++ (codes "/collections/" ++ collection_of vi)

probe_qdrant-Asked :
    (s : Stores) (vi : VectorIndex)
    → (probe_qdrant s vi).health ≡ healthy
    → Asked s (collection_url vi) vi.spec.dimension (probe_qdrant s vi)
unfolding probe_qdrant
probe_qdrant-Asked s vi h = elim (Bool-cases (s.valid_url (collection_url vi))) [
  | inl ok ↦
      rw (ok, probe_qdrant)
        (ask_qdrant-Asked s (collection_url vi) vi.spec.dimension _ (rw (ok, probe_qdrant) at h))
  | inr bad ↦ absurd (ground (arith, bad, h))
]

refine-healthy :
    (expected : ℕ) (r : ProbeResult)
    → 0 < expected
    → (refine expected r).health ≡ healthy
    → (refine expected r ≡ r) × (r.points ≢ some 0)
unfolding refine is_healthy is_zero
refine-healthy expected r wanted good = (ground arith, ground arith)

-- What a pass reports of a collection that it has found healthy.
pub record Confirmed (s : Stores) (vi vi' : VectorIndex) : Type 0 where
  pub probed : ProbeResult
  pub asked : Asked s (collection_url vi) vi.spec.dimension probed
  pub points : vi'.status.point_count ≡ probed.points
  pub filled : probed.points ≢ some 0
  pub dimension : vi'.status.dimension ≡ probed.dimension

reconcile-observe :
    (p : Platform) (s : Stores) (clock : Clock) (answer : Option ApiError) (cache : ProbeCache)
    (vi : VectorIndex)
    → (reconcile p s clock answer cache vi).1 ≡ (observe p s clock cache vi).0
unfolding reconcile
reconcile-observe p s clock answer cache vi = ground arith

-- Without a fresh entry the store is asked.
observe-missed :
    (p : Platform) (s : Stores) (clock : Clock) (cache : ProbeCache) (vi : VectorIndex)
    → vi.spec.store.type ≡ qdrant
    → fresh_entry (cache_key vi) clock.looked_up cache ≡ none
    → (observe p s clock cache vi).0
      ≡ report p clock.stamped (refine vi.spec.dimension (probe_qdrant s vi)) vi
unfolding observe probe_store
observe-missed p s clock cache vi type missed =
    let asked : probe_store s vi ≡ probe_qdrant s vi = ground (arith, type) in
    ap (λ r. report p clock.stamped (refine vi.spec.dimension r) vi)
      (cached_probe-missed (cache_key vi) clock.looked_up clock.checked (probe_store s vi) cache
          missed
        ∙ asked)

report-Confirmed :
    (p : Platform) (s : Stores) (now : Time) (vi : VectorIndex)
    → 0 < vi.spec.dimension
    → (report p now (refine vi.spec.dimension (probe_qdrant s vi)) vi).status.health ≡ some healthy
    → Confirmed s vi (report p now (refine vi.spec.dimension (probe_qdrant s vi)) vi)
unfolding report
report-Confirmed p s now vi wanted good =
    let r = probe_qdrant s vi in
    let (same, filled) = refine-healthy vi.spec.dimension r wanted (ground (arith, good)) in
    record {
      probed = r;
      asked = probe_qdrant-Asked s vi (ground (arith, good, same));
      points = ap (λ q. q.points) same;
      filled = filled;
      dimension = ap (λ q. q.dimension) same;
    }

-- Where a pass reports a VectorIndex in Qdrant with an expected dimension healthy, and the cache had no
-- fresh entry for it, Qdrant has answered 200 to a GET of its collection, with a body that tells the
-- points and the size of the vectors that are reported; the points are not 0, and the size is the
-- expected one, unless it is told as 0.
pub reconcile-Healthy :
    (p : Platform) (s : Stores) (clock : Clock) (answer : Option ApiError) (cache : ProbeCache)
    (vi : VectorIndex)
    → vi.spec.store.type ≡ qdrant
    → fresh_entry (cache_key vi) clock.looked_up cache ≡ none
    → 0 < vi.spec.dimension
    → (reconcile p s clock answer cache vi).1.status.health ≡ some healthy
    → Confirmed s vi (reconcile p s clock answer cache vi).1
reconcile-Healthy p s clock answer cache vi type missed wanted good =
    let same =
      reconcile-observe p s clock answer cache vi ∙ observe-missed p s clock cache vi type missed in
    subst (Confirmed s vi) (sym same)
      (report-Confirmed p s clock.stamped vi wanted (ap (λ o. o.status.health) (sym same) ∙ good))
