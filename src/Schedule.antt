-- ===== src/Schedule.antt =====
-- internal/controller/scheduling.go, and nextEvalFire of evaluation_controller.go. The zero time
-- is 0, and the clock is far enough from it for `now.Add(-time.Minute)` to be a subtraction.
pub mod Waits
use kuberag.Prelude.{
  ltb, ◌==◌, if◌then◌else◌, is_empty, Text, ℕ, ◌+◌, ◌-◌, ◌*◌, Bool, false, not, ◌&&◌, none, some,
  List, [], ◌∷◌,
}
use kuberag.Platform.{Platform}
use kuberag.Api.KnowledgeBase.{Time, KnowledgeBase}
use kuberag.Cluster.{second, minute}

unfoldable pub next_fire : Platform → Text → Time → Time
next_fire p expr from =
    if is_empty expr then 0 else elim (p.cron_parse expr) [ none ↦ 0 | some next ↦ next from ]

unfoldable pub cron_due : Platform → Text → Time → Time → Bool
cron_due p expr last now = if is_empty expr then false else elim (p.cron_parse expr) [
  | none ↦ false
  | some next ↦ if last == 0 then not (ltb now (next (now - minute))) else not (ltb now (next last))
]

abbrev pub min_wait : ℕ
min_wait = 30 * second

abbrev pub max_wait : ℕ
max_wait = 10 * minute

-- One round of the loop over the times.
abbrev pub sooner : Time → Time → Time → Time
sooner now best t = if not (t == 0) && (ltb t best && ltb now t) then t else best

pub earliest : Time → Time → List Time → Time
earliest now best [] = best
earliest now best (t ∷ ts) = earliest now (sooner now best t) ts

-- `now` is read before the loop, and `later` by time.Until after it.
unfoldable pub requeue_for : Time → Time → List Time → ℕ
requeue_for now later times =
    let d = earliest now (now + max_wait) times - later in
    if ltb d min_wait then min_wait else if ltb max_wait d then max_wait else d

unfoldable pub next_eval_fire : Platform → KnowledgeBase → Time → Time
unfolding next_fire
next_eval_fire p kb now = elim kb.spec.retrieval_quality [
  | none ↦ 0
  | some rq ↦ next_fire p rq.eval_schedule now
]
