-- ===== src/History.antt =====
-- What is said of the history of a pass: accepted calls, deletions, and Jobs created.
pub mod Keeps
pub mod Launches
use kuberag.Prelude.{
  ℕ, ◌+◌, ◌≡◌, refl, sym, ap, ◌∙◌, ◌⊎◌, Bool, true, false, none, List, [], ◌∷◌, ◌++◌,
}
use mathlib.Core.List.{append_assoc}
use mathlib.Core.Path.{subst}
use kuberag.Api.KnowledgeBase.{KnowledgeBase}
use kuberag.Cluster.{
  Call, Server, History, Pass, delete_config_map, delete_job, create_job, update_status,
}

-- The server took the call at some point of the history.
pub data Accepted (s : Server) (c : Call) : History → Type 0 where
  here : {h : History} → s.ack h c ≡ none → Accepted s c (c ∷ h)
  there : {x : Call} {h : History} → Accepted s c h → Accepted s c (x ∷ h)

pub Accepted-append :
    (s : Server) (c : Call) (k h : History) → Accepted s c h → Accepted s c (k ++ h)
Accepted-append s c [] h a = a
Accepted-append s c (x ∷ k) h a = there (Accepted-append s c k h a)

-- At some point of the history, when `P` held of what was before it, the call was made.
pub data Past (c : Call) (P : History → Type 0) : History → Type 0 where
  here : {h : History} → P h → Past c P (c ∷ h)
  there : {x : Call} {h : History} → Past c P h → Past c P (x ∷ h)

pub Past-append : (c : Call) (P : History → Type 0) (k h : History) → Past c P h → Past c P (k ++ h)
Past-append c P [] h a = a
Past-append c P (x ∷ k) h a = Past.there (Past-append c P k h a)

-- The objects of a finished Job that a call deletes: one of its ConfigMaps, or the Job.
abbrev pub deletion : Call → ℕ
deletion (delete_config_map name) = 1
deletion (delete_job name) = 1
deletion _ = 0

abbrev pub deletions : History → ℕ
deletions [] = 0
deletions (c ∷ h) = deletion c + deletions h

abbrev pub creation : Call → ℕ
creation (create_job job) = 1
creation _ = 0

-- A call that neither creates a Job nor writes a status.
abbrev pub is_ordinary : Call → Bool
is_ordinary (create_job job) = false
is_ordinary (update_status status) = false
is_ordinary _ = true

-- The server takes all ordinary calls.
abbrev pub Takes : Server → Type 0
Takes s = (h : History) (c : Call) → is_ordinary c ≡ true → s.ack h c ≡ none

abbrev pub jobs_created : History → ℕ
jobs_created [] = 0
jobs_created (c ∷ h) = creation c + jobs_created h

-- Between two passes nothing was deleted and no Job was created, and the object is as it was.
pub record Quiet (w w' : Pass KnowledgeBase) : Type 0 where
  pub same_object : w'.object ≡ w.object
  pub no_deletions : deletions w'.log ≡ deletions w.log
  pub no_jobs : jobs_created w'.log ≡ jobs_created w.log

-- A pass whose final status was taken by the server before anything was deleted, if anything was.
pub record SavedFirst (s : Server) (before after : Pass KnowledgeBase) : Type 0 where
  pub saved_at : History
  pub later : History
  pub split : after.log ≡ later ++ saved_at
  pub kept : deletions saved_at ≡ deletions before.log
  pub saved : Accepted s (update_status after.object.status) saved_at

abbrev pub SafeEnd : Server → Pass KnowledgeBase → Pass KnowledgeBase → Type 0
SafeEnd s before after = (deletions after.log ≡ deletions before.log) ⊎ SavedFirst s before after

-- The calls added by a step that leaves the object alone.
pub record Adds {S : Type 0} (w w' : Pass S) : Type 0 where
  pub calls : List Call
  pub split : w'.log ≡ calls ++ w.log
  pub same_object : w'.object ≡ w.object

pub Adds-refl : {S : Type 0} (w : Pass S) → Adds w w
Adds-refl w = record { calls = []; split = refl; same_object = refl }

pub Adds-trans : {S : Type 0} {u v w : Pass S} → Adds u v → Adds v w → Adds u w
Adds-trans {u = u} a b = record {
  calls = b.calls ++ a.calls;
  split = b.split ∙ ap (b.calls ++◌) a.split ∙ sym (append_assoc b.calls a.calls u.log);
  same_object = b.same_object ∙ a.same_object;
}

pub Past-Adds :
    {S : Type 0} (c : Call) (P : History → Type 0) {w w' : Pass S}
    → Adds w w'
    → Past c P w.log
    → Past c P w'.log
Past-Adds c P {w} a h = subst (Past c P) (sym a.split) (Past-append c P a.calls w.log h)
