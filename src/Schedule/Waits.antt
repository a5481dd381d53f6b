-- ===== src/Schedule/Waits.antt =====
-- How long the controller waits between two passes.
use kuberag.Prelude.{
  is_empty, Text, ℕ, ◌+◌, ◌-◌, ◌≤◌, ◌<◌, ◌≡◌, refl, ◌∙◌, ◌⊎◌, inl, inr, true, false, some, List, [],
  ◌∷◌, arith,
}
use kuberag.Platform.{Platform}
use kuberag.Api.KnowledgeBase.{Time}
use kuberag.Cluster.{minute}
use kuberag.Schedule.{cron_due, sooner, earliest, requeue_for, min_wait, max_wait}

abbrev pub Among : Time → List Time → Type 0
Among t [] = ⊥
Among t (x ∷ xs) = (t ≡ x) ⊎ Among t xs

earliest-le-best : (now best : Time) (ts : List Time) → earliest now best ts ≤ best
unfolding earliest
earliest-le-best now best [] = omega arith
earliest-le-best now best (t ∷ ts) = ground (arith, earliest-le-best now (sooner now best t) ts)

earliest-le : (now best t : Time) (ts : List Time) → Among t ts → now < t → earliest now best ts ≤ t
unfolding earliest
earliest-le now best t [] h k = absurd h
earliest-le now best t (x ∷ ts) (inl e) k =
    ground (arith, earliest-le-best now (sooner now best x) ts)
earliest-le now best t (x ∷ ts) (inr h) k = earliest-le now (sooner now best x) t ts h k

earliest-future : (now best : Time) (ts : List Time) → now < best → now < earliest now best ts
unfolding earliest
earliest-future now best [] h = h
earliest-future now best (x ∷ ts) h = earliest-future now (sooner now best x) ts (ground arith)

-- With the wait from `later` on, the pass comes by the time `t`, or the wait is the shortest.
abbrev pub Wakes : Time → Time → ℕ → Type 0
Wakes later t wait = (later + wait ≤ t) ⊎ (wait ≡ min_wait)

-- It comes the longest wait behind `now`, or the wait is the shortest.
abbrev pub Rests : Time → Time → ℕ → Type 0
Rests now later wait = (later + wait ≡ now + max_wait) ⊎ (wait ≡ min_wait)

abbrev pub AllPast : Time → List Time → Type 0
AllPast now [] = Unit {0}
AllPast now (t ∷ ts) = (t ≤ now) × AllPast now ts

earliest-past : (now best : Time) (ts : List Time) → AllPast now ts → earliest now best ts ≡ best
unfolding earliest
earliest-past now best [] past = refl
earliest-past now best (t ∷ ts) past =
    let same : sooner now best t ≡ best = ground (arith, past.0) in
    earliest-past now (sooner now best t) ts past.1 ∙ same

-- The wait of requeueFor lies between 30 seconds and 10 minutes, whatever times are listed. Where a listed
-- time is still to come, the next pass comes no later, or the wait is the 30 seconds; and where none is, the
-- next pass comes 10 minutes behind the first reading of the clock, or the wait is the 30 seconds. The
-- second reading of the clock is not before the first.
pub requeue_for_bounds :
    (now later : Time) (times : List Time)
    → now ≤ later
    → (min_wait ≤ requeue_for now later times)
      × (requeue_for now later times ≤ max_wait)
      × ((t : Time) → Among t times → now < t → Wakes later t (requeue_for now later times))
      × (AllPast now times → Rests now later (requeue_for now later times))
unfolding requeue_for
requeue_for_bounds now later times clock = (
  ground arith,
  ground arith,
  λ t listed future. let le = earliest-le now (now + max_wait) t times listed future in grind arith,
  λ past. let same = earliest-past now (now + max_wait) times past in grind arith,
)

-- An expression that the parser accepts and that never fires, so that the next fire time is the
-- zero time, is due at every moment, whenever the action last ran.
pub cron_due-never_fires :
    (p : Platform) (expr : Text) (next : Time → Time) (last now : Time)
    → is_empty expr ≡ false
    → p.cron_parse expr ≡ some next
    → ((t : Time) → next t ≡ 0)
    → cron_due p expr last now ≡ true
unfolding cron_due
cron_due-never_fires p expr next last now filled parsed never =
    ground (arith, never last, never (now - minute))
