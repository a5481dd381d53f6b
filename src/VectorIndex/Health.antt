-- ===== src/VectorIndex/Health.antt =====
-- Reconcile of vectorindex_controller.go, on the object that its first read returned.
pub mod Probing
use kuberag.Prelude.{
  ltb, ◌==◌, if◌then◌else◌, ℕ, ◌^◌, ◌<◌, ◌≡◌, sym, ap, ◌∙◌, Bool, true, false, ◌&&◌, Option, none,
  some, arith,
}
use kuberag.Platform.{Platform}
use kuberag.Api.KnowledgeBase.{
  Time, Reason, ready_condition, index_healthy, index_degraded, index_missing, index_unknown,
}
use kuberag.Cluster.{ApiError, Outcome, done, requeue_after, seconds}
use kuberag.VectorIndex.{
  collection_of, VectorIndex, VectorIndexHealth, healthy, degraded, missing, unknown, ProbeResult,
  Stores, probe_store,
}
use kuberag.VectorIndex.Cache.{ProbeCache, cached_probe, cached_probe-fresh, cache_key, fresh_entry}

-- The readings of the clock in one pass.
pub record Clock : Type 0 where
  pub looked_up : Time
  pub checked : Time
  pub stamped : Time

health_reason : VectorIndexHealth → Reason
health_reason healthy = index_healthy
health_reason degraded = index_degraded
health_reason missing = index_missing
health_reason unknown = index_unknown

is_healthy : VectorIndexHealth → Bool
is_healthy healthy = true
is_healthy _ = false

is_zero : Option ℕ → Bool
is_zero none = false
is_zero (some n) = n == 0

-- A healthy collection without points, where a dimension is expected.
unfoldable pub refine : ℕ → ProbeResult → ProbeResult
unfolding is_healthy is_zero
refine expected r =
    if is_healthy r.health && (is_zero r.points && ltb 0 expected)
    then record r { health = degraded }
    else r

unfoldable pub report : Platform → Time → ProbeResult → VectorIndex → VectorIndex
unfolding health_reason is_healthy
report p now r vi = record vi {
  status = record {
    observed_generation = vi.generation;
    health = some r.health;
    point_count = r.points;
    dimension = r.dimension;
    last_probe_time = some now;
    conditions = p.set_status_condition vi.status.conditions (record {
      type = ready_condition;
      status = is_healthy r.health;
      reason = health_reason r.health;
      observed_generation = vi.generation;
    });
  };
}

-- The object whose status is written, and the cache that is left.
unfoldable pub observe :
    Platform → Stores → Clock → ProbeCache → VectorIndex → VectorIndex × ProbeCache
unfolding refine report
observe p s clock cache vi =
    let (r, cache') =
      cached_probe (cache_key vi) clock.looked_up clock.checked (probe_store s vi) cache in
    (report p clock.stamped (refine vi.spec.dimension r) vi, cache')

pub interval : VectorIndex → ℕ
interval vi = if ltb vi.spec.probe_interval_seconds 10 then 60 else vi.spec.probe_interval_seconds

-- `ctrl.Result{RequeueAfter: …}`, from the bits of the duration: controller-runtime asks for another
-- pass only where it is greater than 0.
unfoldable pub requeue_in : ℕ → Outcome
requeue_in d = if ltb 0 d && ltb d (2 ^ 63) then requeue_after d else done

-- The pass, for the answer to the update of the status.
unfoldable pub reconcile :
    Platform
    → Stores
    → Clock
    → Option ApiError
    → ProbeCache
    → VectorIndex
    → Outcome × VectorIndex × ProbeCache
unfolding interval requeue_in seconds
reconcile p s clock answer cache vi =
    let (vi', cache') = observe p s clock cache vi in
    elim answer [
      | some e ↦ (Outcome.failed e, vi', cache')
      | none ↦ (requeue_in (seconds (interval vi)), vi', cache')
    ]

refine-set : (d e : ℕ) (r : ProbeResult) → 0 < d → 0 < e → refine d r ≡ refine e r
unfolding refine
refine-set d e r h k = ground arith

-- Where the cache has a fresh entry for a VectorIndex whose expected dimension is set, a pass reports
-- the same status as it would with any other expected dimension that is set.
pub observe-hides :
    (p : Platform) (s : Stores) (clock : Clock) (cache : ProbeCache) (vi : VectorIndex)
    (expected : ℕ) (r : ProbeResult)
    → fresh_entry (cache_key vi) clock.looked_up cache ≡ some r
    → 0 < vi.spec.dimension
    → 0 < expected
    → let changed = record vi { spec = record (vi.spec) { dimension = expected } } in
      (observe p s clock cache changed).0.status ≡ (observe p s clock cache vi).0.status
unfolding observe report cache_key collection_of
observe-hides p s clock cache vi expected r fresh set other =
    let changed = record vi { spec = record (vi.spec) { dimension = expected } } in
    let key = cache_key vi in
    let was =
      cached_probe-fresh key clock.looked_up clock.checked (probe_store s vi) r cache fresh in
    let is =
      cached_probe-fresh key clock.looked_up clock.checked (probe_store s changed) r cache fresh in
    ap (λ c. (report p clock.stamped (refine expected c.0) changed).status) is
    ∙ ap (λ q. (report p clock.stamped q vi).status)
        (refine-set expected vi.spec.dimension r other set)
    ∙ sym (ap (λ c. (report p clock.stamped (refine vi.spec.dimension c.0) vi).status) was)
