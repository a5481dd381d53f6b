-- ===== src/Metrics/Latest.antt =====
-- What the gauge shows after any sequence of observations.
pub mod Tests
use kuberag.Prelude.{
  put, get_or, leb, if◌then◌else◌, Bool-cases, text_eq, Text, text_eq_refl, text_eq_sound, ℕ, ◌≤◌,
  ◌≡◌, refl, sym, ◌⊎◌, inl, inr, true, false, List, [], ◌∷◌, arith,
}
use kuberag.Api.KnowledgeBase.{Time}
use kuberag.Metrics.{Freshness, unix_seconds, observe_successful_ingestion}

get_or-put :
    (key other : Text) (n : ℕ) (m : List (Text × ℕ))
    → get_or 0 other (put key n m) ≡ (if text_eq key other then n else get_or 0 other m)
unfolding get_or put
get_or-put key other n [] = refl
get_or-put key other n ((k, y) ∷ m) = grind (
  arith,
  get_or-put key other n m,
  text_eq_sound k key,
  text_eq_sound key other,
  text_eq_sound k other,
  text_eq_refl,
)

abbrev greater : ℕ → ℕ → ℕ
greater a b = if leb b a then a else b

-- The observations, each in the state that the one before it leaves.
unfoldable pub observe_all : List (Text × Time) → Freshness → Freshness
observe_all [] f = f
observe_all ((key, t) ∷ ts) f = observe_all ts (observe_successful_ingestion key t f)

-- The state after an observation that is not later than what is kept.
observe-kept :
    (key : Text) (t : Time) (f : Freshness)
    → leb (unix_seconds t) (get_or 0 key f.last) ≡ true
    → observe_successful_ingestion key t f ≡ f
unfolding observe_successful_ingestion
observe-kept key t f h = rw (h)

observe-put :
    (key : Text) (t : Time) (f : Freshness)
    → leb (unix_seconds t) (get_or 0 key f.last) ≡ false
    → observe_successful_ingestion key t f
      ≡ record { last = put key (unix_seconds t) f.last; gauge = put key (unix_seconds t) f.gauge }
unfolding observe_successful_ingestion
observe-put key t f h = rw (h)

observe-max :
    (key other : Text) (t : Time) (f : Freshness)
    → get_or 0 other (observe_successful_ingestion key t f).last ≡ (
        if text_eq key other
        then greater (get_or 0 other f.last) (unix_seconds t)
        else get_or 0 other f.last)
observe-max key other t f = elim (Bool-cases (leb (unix_seconds t) (get_or 0 key f.last))) [
  | inl h ↦ rw (observe-kept key t f h) (grind (arith, h, text_eq_sound key other))
  | inr h ↦ rw (observe-put key t f h, get_or-put) (grind (arith, h, text_eq_sound key other))
]

observe-agree :
    (key other : Text) (t : Time) (f : Freshness)
    → get_or 0 other f.gauge ≡ get_or 0 other f.last
    → get_or 0 other (observe_successful_ingestion key t f).gauge
      ≡ get_or 0 other (observe_successful_ingestion key t f).last
observe-agree key other t f h = elim (Bool-cases (leb (unix_seconds t) (get_or 0 key f.last))) [
  | inl g ↦ rw (observe-kept key t f g) h
  | inr g ↦
      rw (observe-put key t f g, get_or-put, h) (sym (get_or-put key other (unix_seconds t) f.last))
]

-- A second that a namespace had at the start, or that was observed for it.
abbrev pub Seen : Text → List (Text × Time) → ℕ → ℕ → Type 0
Seen namespace [] start n = n ≡ start
Seen namespace ((key, t) ∷ ts) start n =
    ((text_eq key namespace ≡ true) × (n ≡ unix_seconds t)) ⊎ Seen namespace ts start n

-- No second observed for the namespace is after n, and none that it had at the start.
abbrev pub Last : Text → List (Text × Time) → ℕ → ℕ → Type 0
Last namespace [] start n = start ≤ n
Last namespace ((key, t) ∷ ts) start n =
    ((text_eq key namespace ≡ true) → unix_seconds t ≤ n) × Last namespace ts start n

observe_all-agree :
    (namespace : Text) (ts : List (Text × Time)) (f : Freshness)
    → get_or 0 namespace f.gauge ≡ get_or 0 namespace f.last
    → get_or 0 namespace (observe_all ts f).gauge ≡ get_or 0 namespace (observe_all ts f).last
unfolding observe_all
observe_all-agree namespace [] f h = h
observe_all-agree namespace ((key, t) ∷ ts) f h =
    observe_all-agree namespace ts (observe_successful_ingestion key t f)
      (observe-agree key namespace t f h)

Seen-later :
    (namespace key : Text) (t : Time) (ts : List (Text × Time)) (start n : ℕ)
    → Seen namespace ts (if text_eq key namespace then greater start (unix_seconds t) else start) n
    → Seen namespace ((key, t) ∷ ts) start n
Seen-later namespace key t [] start n s = ground (arith, s)
Seen-later namespace key t ((k, u) ∷ ts) start n (inl s) = inr (inl s)
Seen-later namespace key t ((k, u) ∷ ts) start n (inr s) =
    elim (Seen-later namespace key t ts start n s) [ inl e ↦ inl e | inr r ↦ inr (inr r) ]

Last-later :
    (namespace key : Text) (t : Time) (ts : List (Text × Time)) (start n : ℕ)
    → Last namespace ts (if text_eq key namespace then greater start (unix_seconds t) else start) n
    → Last namespace ((key, t) ∷ ts) start n
Last-later namespace key t [] start n s = ground (arith, s)
Last-later namespace key t ((k, u) ∷ ts) start n (s, r) =
    let rest = Last-later namespace key t ts start n r in (rest.0, (s, rest.1))

observe_all-Seen :
    (namespace : Text) (ts : List (Text × Time)) (f : Freshness)
    → Seen namespace ts (get_or 0 namespace f.last) (get_or 0 namespace (observe_all ts f).last)
unfolding observe_all
observe_all-Seen namespace [] f = refl
observe_all-Seen namespace ((key, t) ∷ ts) f =
    let o = observe_successful_ingestion key t f in
    Seen-later namespace key t ts (get_or 0 namespace f.last)
      (get_or 0 namespace (observe_all ts o).last)
      (rw (sym (observe-max key namespace t f)) (observe_all-Seen namespace ts o))

observe_all-Last :
    (namespace : Text) (ts : List (Text × Time)) (f : Freshness)
    → Last namespace ts (get_or 0 namespace f.last) (get_or 0 namespace (observe_all ts f).last)
unfolding observe_all
observe_all-Last namespace [] f = ground arith
observe_all-Last namespace ((key, t) ∷ ts) f =
    let o = observe_successful_ingestion key t f in
    Last-later namespace key t ts (get_or 0 namespace f.last)
      (get_or 0 namespace (observe_all ts o).last)
      (rw (sym (observe-max key namespace t f)) (observe_all-Last namespace ts o))

-- Whatever ingestions succeed, in whatever order, the freshness gauge of a namespace shows the
-- greatest second of those observed for the namespace and the one that it showed before, when the
-- gauge showed what the controller had kept.
pub observe_all-IsLatest :
    (namespace : Text) (ts : List (Text × Time)) (f : Freshness)
    → get_or 0 namespace f.gauge ≡ get_or 0 namespace f.last
    → Seen namespace ts (get_or 0 namespace f.gauge) (get_or 0 namespace (observe_all ts f).gauge)
      × Last namespace ts (get_or 0 namespace f.gauge) (get_or 0 namespace (observe_all ts f).gauge)
observe_all-IsLatest namespace ts f h =
    rw (observe_all-agree namespace ts f h, h)
      (observe_all-Seen namespace ts f, observe_all-Last namespace ts f)
