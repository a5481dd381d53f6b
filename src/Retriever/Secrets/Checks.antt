-- ===== src/Retriever/Secrets/Checks.antt =====
-- What a validation that finds nothing wrong has seen.
use kuberag.Prelude.{is_empty, Text, ◌≡◌, refl, sym, false, Option, none, some, List, [], ◌∷◌, ◌++◌}
use mathlib.Core.Path.{subst}
use kuberag.Api.KnowledgeBase.{SecretKeyRef, Reason}
use kuberag.Api.Retriever.{Retriever}
use kuberag.Cluster.{Server, History, Pass, get_secret, ApiError, answer}
use kuberag.History.{Past, Past-append, Past-Adds, Adds, Adds-trans}
use kuberag.Retriever.Secrets.{data_fault, secret_fault, stop_at, fetch_secret, validate_refs}

-- The server gives the Secret, and has a value that is not empty under the key.
pub record Usable (s : Server) (ref : SecretKeyRef) (h : History) : Type 0 where
  pub readable : s.ack h (get_secret ref.name) ≡ none
  pub bytes : Text
  pub held : s.secret h ref.name ref.key ≡ some bytes
  pub filled : is_empty bytes ≡ false

-- At some point of the history the Secret was read and was usable.
abbrev pub Held : Server → SecretKeyRef → History → Type 0
Held s ref = Past (get_secret ref.name) (Usable s ref)

abbrev pub AllHeld : Server → List (Text × SecretKeyRef) → History → Type 0
AllHeld s [] h = Unit
AllHeld s ((label, ref) ∷ rest) h = Held s ref h × AllHeld s rest h

pub AllHeld-append :
    (s : Server) (refs : List (Text × SecretKeyRef)) (k h : History)
    → AllHeld s refs h
    → AllHeld s refs (k ++ h)
AllHeld-append s [] k h a = tt
AllHeld-append s ((label, ref) ∷ rest) k h a =
    (Past-append _ _ k h a.0, AllHeld-append s rest k h a.1)

pub AllHeld-Adds :
    (s : Server) (refs : List (Text × SecretKeyRef)) {w w' : Pass Retriever}
    → Adds w w'
    → AllHeld s refs w.log
    → AllHeld s refs w'.log
AllHeld-Adds s refs {w} a held =
    subst (AllHeld s refs) (sym a.split) (AllHeld-append s refs a.calls w.log held)

data_fault-none :
    (o : Option Text)
    → data_fault o ≡ none
    → (bytes : Text) × (o ≡ some bytes) × (is_empty bytes ≡ false)
unfolding data_fault
data_fault-none none h = cc
data_fault-none (some []) h = cc
data_fault-none (some (c ∷ t)) h = (c ∷ t, refl, refl)

secret_fault-none :
    (s : Server) (e : Option ApiError) (o : Option Text)
    → secret_fault (answer s e o) ≡ none
    → (e ≡ none) × (bytes : Text) × (o ≡ some bytes) × (is_empty bytes ≡ false)
unfolding secret_fault
secret_fault-none s none o h =
    let (bytes, held, filled) = data_fault-none o h in (refl, bytes, held, filled)
secret_fault-none s (some x) o h = cc

module _ (s : Server) where
  abbrev fault_at : Pass Retriever → SecretKeyRef → Option Reason
  fault_at w ref =
      secret_fault (answer s (s.ack w.log (get_secret ref.name)) (s.secret w.log ref.name ref.key))

  fault_at-Usable :
      (w : Pass Retriever) (ref : SecretKeyRef) → fault_at w ref ≡ none → Usable s ref w.log
  fault_at-Usable w ref h =
      let (good, bytes, held, filled) = secret_fault-none s _ _ h in
      record { readable = good; bytes = bytes; held = held; filled = filled }

  -- The reads that a validation adds, and what they have seen where nothing is wrong.
  pub record Validated (refs : List (Text × SecretKeyRef)) (w : Pass Retriever)
      (out : Option Reason × Pass Retriever) : Type 0 where
    pub adds : Adds w out.1
    pub all_held : out.0 ≡ none → AllHeld s refs out.1.log

  stop_at-Validated :
      (label : Text) (ref : SecretKeyRef) (rest : List (Text × SecretKeyRef))
      (fault : Option Reason) (w : Pass Retriever)
      → let u : Pass Retriever = record w { log = get_secret ref.name ∷ w.log } in
        (fault ≡ none → Usable s ref w.log)
        → Validated rest u (validate_refs s rest u)
        → Validated ((label, ref) ∷ rest) w (stop_at s fault (validate_refs s rest) u)
  unfolding stop_at
  stop_at-Validated label ref rest (some r) w usable more = record {
    adds = record { calls = get_secret ref.name ∷ []; split = refl; same_object = refl };
    all_held = λ h. cc;
  }
  stop_at-Validated label ref rest none w usable more =
      let read : Adds w (record w { log = get_secret ref.name ∷ w.log }) = record {
        calls = get_secret ref.name ∷ [];
        split = refl;
        same_object = refl;
      } in
      record {
        adds = Adds-trans read more.adds;
        all_held = λ h. (Past-Adds _ _ more.adds (Past.here (usable refl)), more.all_held h);
      }

  pub validate_refs-Validated :
      (refs : List (Text × SecretKeyRef)) (w : Pass Retriever)
      → Validated refs w (validate_refs s refs w)
  unfolding validate_refs fetch_secret
  validate_refs-Validated [] w = record {
    adds = record { calls = []; split = refl; same_object = refl };
    all_held = λ h. tt;
  }
  validate_refs-Validated ((label, ref) ∷ rest) w =
      stop_at-Validated label ref rest (fault_at w ref) w (fault_at-Usable w ref)
        (validate_refs-Validated rest _)
