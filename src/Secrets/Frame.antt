-- ===== src/Secrets/Frame.antt =====
-- What the hash of the credentials depends on, and what reading them leaves alone.
pub mod Tests
use kuberag.Prelude.{
  length, Text, suc, ◌≡◌, refl, sym, ap, ◌∙◌, ◌≢◌, Option, none, some, List, [], ◌∷◌, ◌++◌, arith,
}
use mathlib.Core.Path.{ap₂}
use mathlib.Core.List.{append_assoc}
use kuberag.Platform.{Platform}
use kuberag.Api.KnowledgeBase.{KnowledgeBase, SecretKeyRef}
use kuberag.Cluster.{Server, Pass, get_secret}
use kuberag.History.{Quiet, Adds, Adds-refl, Adds-trans}
use kuberag.Secrets.{framed, secret_header, read_secret, append_secrets, compute_secrets_hash}

read_secret-Quiet :
    (s : Server) (ref : SecretKeyRef) (w : Pass KnowledgeBase) → Quiet w (read_secret s ref w).1
unfolding read_secret
read_secret-Quiet s ref w = ground arith

append_secrets-Quiet :
    (s : Server) (refs : List (Text × SecretKeyRef)) (w : Pass KnowledgeBase)
    → Quiet w (append_secrets s refs w).1
unfolding append_secrets
append_secrets-Quiet s [] w = ground arith
append_secrets-Quiet s ((label, ref) ∷ rest) w =
    let u = (read_secret s ref w).1 in
    let first = read_secret-Quiet s ref w in
    let more = append_secrets-Quiet s rest u in
    record {
      same_object = more.same_object ∙ first.same_object;
      no_deletions = more.no_deletions ∙ first.no_deletions;
      no_jobs = more.no_jobs ∙ first.no_jobs;
    }

pub compute_secrets_hash-Quiet :
    (s : Server) (p : Platform) (w : Pass KnowledgeBase) → Quiet w (compute_secrets_hash s p w).1
unfolding compute_secrets_hash
compute_secrets_hash-Quiet s p w = append_secrets-Quiet s _ w

pub append_secrets-Adds :
    {S : Type 0} (s : Server) (refs : List (Text × SecretKeyRef)) (w : Pass S)
    → Adds w (append_secrets s refs w).1
unfolding append_secrets read_secret
append_secrets-Adds s [] w = Adds-refl w
append_secrets-Adds s ((label, ref) ∷ rest) w =
    Adds-trans (record { calls = get_secret ref.name ∷ []; split = refl; same_object = refl })
      (append_secrets-Adds s rest (read_secret s ref w).1)

-- The bytes hashed for references whose values are at hand, one value each.
pub material : List (Text × SecretKeyRef) → List (Option Text) → Text
material ((label, ref) ∷ rest) (v ∷ vs) = (secret_header label ref ++ framed v) ++ material rest vs
material _ _ = []

-- The values that a pass reads, in order.
pub read_values : Server → List (Text × SecretKeyRef) → Pass KnowledgeBase → List (Option Text)
read_values s [] w = []
read_values s ((label, ref) ∷ rest) w =
    (read_secret s ref w).0 ∷ read_values s rest (read_secret s ref w).1

pub append_secrets-material :
    (s : Server) (refs : List (Text × SecretKeyRef)) (w : Pass KnowledgeBase)
    → (append_secrets s refs w).0 ≡ material refs (read_values s refs w)
unfolding append_secrets material read_values
append_secrets-material s [] w = refl
append_secrets-material s ((label, ref) ∷ rest) w =
    ap ((secret_header label ref ++ framed (read_secret s ref w).0) ++◌)
      (append_secrets-material s rest (read_secret s ref w).1)

-- No byte 0, in a value that is there.
abbrev pub ZeroFree : Text → Type 0
ZeroFree [] = Unit
ZeroFree (c ∷ t) = (c ≢ 0) × ZeroFree t

abbrev pub PlainValue : Option Text → Type 0
PlainValue none = Unit
PlainValue (some t) = ZeroFree t

abbrev pub PlainValues : List (Option Text) → Type 0
PlainValues [] = Unit
PlainValues (v ∷ vs) = PlainValue v × PlainValues vs

zero_terminated :
    (a b x y : Text) → ZeroFree a → ZeroFree b → a ++ 0 ∷ x ≡ b ++ 0 ∷ y → (a ≡ b) × (x ≡ y)
zero_terminated [] [] x y h k e = ground arith
zero_terminated [] (d ∷ b) x y h k e = absurd (k.0 (ground arith))
zero_terminated (c ∷ a) [] x y h k e = absurd (h.0 (ground arith))
zero_terminated (c ∷ a) (d ∷ b) x y h k e = ground (arith, zero_terminated a b x y h.1 k.1)

append-cancel : (a x y : Text) → a ++ x ≡ a ++ y → x ≡ y
append-cancel [] x y e = e
append-cancel (c ∷ a) x y e = append-cancel a x y (ground arith)

framed-injective :
    (v v' : Option Text) (x y : Text)
    → PlainValue v
    → PlainValue v'
    → framed v ++ x ≡ framed v' ++ y
    → (v ≡ v') × (x ≡ y)
unfolding framed
framed-injective none none x y h k e = ground arith
framed-injective none (some b) x y h k e = ground arith
framed-injective (some a) none x y h k e = ground arith
framed-injective (some a) (some b) x y h k e =
    let tail =
      zero_terminated a b x y h k
        (sym (append_assoc a (0 ∷ []) x) ∙ tail_eq e ∙ append_assoc b (0 ∷ []) y) in
    (ap some tail.0, tail.1)
  where
    tail_eq :
        1 ∷ ((a ++ 0 ∷ []) ++ x) ≡ 1 ∷ ((b ++ 0 ∷ []) ++ y)
        → (a ++ 0 ∷ []) ++ x ≡ (b ++ 0 ∷ []) ++ y
    tail_eq e = ground arith

-- A changed credential is seen. For the same references, two lists of values, none of which holds a
-- zero byte, give the same bytes to hash only if they are the same: a value that changes, appears or
-- disappears changes what is hashed.
pub material-injective :
    (refs : List (Text × SecretKeyRef)) (vs ws : List (Option Text))
    → length vs ≡ length refs
    → length ws ≡ length refs
    → PlainValues vs
    → PlainValues ws
    → material refs vs ≡ material refs ws
    → vs ≡ ws
unfolding material
material-injective [] [] [] n m h k e = refl
material-injective [] (v ∷ vs) ws n m h k e = absurd (omega arith)
material-injective [] [] (w ∷ ws) n m h k e = absurd (omega arith)
material-injective (r ∷ refs) [] ws n m h k e = absurd (omega arith)
material-injective (r ∷ refs) (v ∷ vs) [] n m h k e = absurd (omega arith)
material-injective ((label, ref) ∷ refs) (v ∷ vs) (w ∷ ws) n m h k e =
    let head = secret_header label ref in
    let e' = append-cancel head (framed v ++ material refs vs) (framed w ++ material refs ws) (
      sym (append_assoc head (framed v) (material refs vs))
      ∙ e
      ∙ append_assoc head (framed w) (material refs ws)) in
    let both = framed-injective v w (material refs vs) (material refs ws) h.0 k.0 e' in
    let rest = material-injective refs vs ws (omega arith) (omega arith) h.1 k.1 both.1 in
    ap₂ ◌∷◌ both.0 rest

pub length-read_values :
    (s : Server) (refs : List (Text × SecretKeyRef)) (w : Pass KnowledgeBase)
    → length (read_values s refs w) ≡ length refs
unfolding read_values
length-read_values s [] w = refl
length-read_values s ((label, ref) ∷ rest) w =
    ap suc (length-read_values s rest (read_secret s ref w).1)

-- Two passes of computeSecretsHash over one list of references, at whatever points and servers,
-- hash the same bytes only if they read the same credentials, for values without a zero byte.
pub append_secrets-injective :
    (s s' : Server) (refs : List (Text × SecretKeyRef)) (w w' : Pass KnowledgeBase)
    → PlainValues (read_values s refs w)
    → PlainValues (read_values s' refs w')
    → (append_secrets s refs w).0 ≡ (append_secrets s' refs w').0
    → read_values s refs w ≡ read_values s' refs w'
append_secrets-injective s s' refs w w' h k e =
    material-injective refs (read_values s refs w) (read_values s' refs w')
      (length-read_values s refs w) (length-read_values s' refs w') h k
      (sym (append_secrets-material s refs w) ∙ e ∙ append_secrets-material s' refs w')
