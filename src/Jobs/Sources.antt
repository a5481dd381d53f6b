-- ===== src/Jobs/Sources.antt =====
-- The revisions that a worker is given to skip unchanged sources.
use kuberag.Prelude.{
  if◌then◌else◌, text_eq, Text, text_eq_sound, ◌≡◌, refl, ap, false, Option, none, some, List, [],
  ◌∷◌, ◌++◌, arith,
}
use kuberag.Api.KnowledgeBase.{KnowledgeBase, SourceStatus}
use kuberag.Jobs.{named, unseen, prior_sources}

-- What a reader of the list finds under a name: the first source of that name.
abbrev pub lookup : Text → List SourceStatus → Option SourceStatus
lookup x [] = none
lookup x (y ∷ ys) = if text_eq y.name x then some y else lookup x ys

lookup-append_named :
    (x : Text) (ys zs : List SourceStatus)
    → lookup x (ys ++ zs) ≡ (if named x ys then lookup x ys else lookup x zs)
unfolding named
lookup-append_named x [] zs = refl
lookup-append_named x (y ∷ ys) zs = ground (arith, lookup-append_named x ys zs)

named-eq : (x y : Text) (ys : List SourceStatus) → x ≡ y → named x ys ≡ named y ys
named-eq x y ys e = ap (λ z. named z ys) e

lookup-unseen :
    (x : Text) (synced cs : List SourceStatus)
    → named x synced ≡ false
    → lookup x (unseen synced cs) ≡ lookup x cs
unfolding unseen
lookup-unseen x synced [] h = refl
lookup-unseen x synced (c ∷ cs) h =
    ground (arith, lookup-unseen x synced cs h, text_eq_sound c.name x, named-eq c.name x synced)

-- A worker that resumes finds the revision last synced for every source that has one, and the
-- checkpoint's for a source that has none: a checkpoint never overrides a finished sync.
pub lookup-prior_sources :
    (x : Text) (kb : KnowledgeBase)
    → lookup x (prior_sources kb) ≡ (
        if named x kb.status.sources
        then lookup x kb.status.sources
        else lookup x kb.status.last_checkpoint)
unfolding prior_sources
lookup-prior_sources x kb = ground (
  arith,
  lookup-append_named x kb.status.sources (unseen kb.status.sources kb.status.last_checkpoint),
  lookup-unseen x kb.status.sources kb.status.last_checkpoint,
)
