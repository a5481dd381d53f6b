-- ===== src/VectorIndex/Tests.antt =====
-- A VectorIndex of a collection in Qdrant.
use kuberag.Prelude.{
  Text, codes, text_eq_refl, ℕ, ◌*◌, ◌≡◌, refl, true, Option, none, some, [], ◌∷◌, arith,
}
use kuberag.Cluster.{requeue_after, second, seconds}
use kuberag.VectorIndex.{
  VectorIndex, healthy, ProbeResult, Stores, judge_qdrant, probe_store, probe_qdrant, ask_qdrant,
  qdrant_credential,
}
use kuberag.VectorIndex.Cache.{ProbeCache, cached_probe, cache_key, fresh_entry, find_entry}
use kuberag.VectorIndex.Health.{
  Clock, reconcile, observe, report, refine, requeue_in, observe-hides,
}
use kuberag.VectorIndex.Health.Probing.{Confirmed, reconcile-Healthy}
use kuberag.Fixtures.{platform, vector_store}

abbrev index : VectorIndex
index = record {
  generation = 1;
  spec = record {
    knowledge_base_ref = codes "docs";
    store = vector_store;
    dimension = 384;
    probe_interval_seconds = 60;
  };
  status = record {
    observed_generation = 0;
    health = none;
    point_count = none;
    dimension = 0;
    last_probe_time = none;
    conditions = [];
  };
}

-- Every collection has 12 points of 384 dimensions.
abbrev stores : Stores
stores = record {
  secret = λ name. none;
  valid_url = λ url. true;
  http_get = λ url key. some (200, []);
  has_host = λ url. true;
  qdrant_body = λ text. some (12, 384);
  milvus_body = λ text. none;
  sql_open = λ dsn. true;
  sql_ping = λ dsn. true;
  table_exists = λ dsn table. some true;
  count_rows = λ dsn table. some 12;
}

abbrev twelve : ProbeResult
twelve = record { health = healthy; points = some 12; dimension = 384 }

abbrev response : Option (ℕ × Text)
response = some (200, [])

judged : (judge_qdrant stores 384 response).health ≡ healthy
unfolding judge_qdrant
judged = refl

abbrev clock : Clock
clock = record { looked_up = 110 * second; checked = 111 * second; stamped = 111 * second }

abbrev cache : ProbeCache
cache = record { key = cache_key index; result = twelve; checked_at = 100 * second } ∷ []

hit : fresh_entry (cache_key index) clock.looked_up cache ≡ some twelve
unfolding fresh_entry find_entry
hit = ground (arith, text_eq_refl (cache_key index))

missed : fresh_entry (cache_key index) clock.looked_up [] ≡ none
unfolding fresh_entry find_entry
missed = refl

reported_healthy : (reconcile platform stores clock none [] index).1.status.health ≡ some healthy
unfolding reconcile observe report refine cached_probe fresh_entry find_entry probe_store
    probe_qdrant ask_qdrant qdrant_credential judge_qdrant
reported_healthy = refl

reconcile-Healthy_example : Confirmed stores index (reconcile platform stores clock none [] index).1
reconcile-Healthy_example =
    reconcile-Healthy platform stores clock none [] index refl missed (omega arith) reported_healthy

-- An interval of 18446744074 seconds wraps to less than one.
wrapped : requeue_in (seconds 18446744074) ≡ requeue_after 290448384
unfolding requeue_in seconds
wrapped = refl

abbrev resized : VectorIndex
resized = record index { spec = record (index.spec) { dimension = 1536 } }

observe-hides_example :
    (observe platform stores clock cache resized).0.status
    ≡ (observe platform stores clock cache index).0.status
observe-hides_example =
    observe-hides platform stores clock cache index 1536 twelve hit (omega arith) (omega arith)
