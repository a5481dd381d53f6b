-- ===== src/Retriever/Apply/Steps.antt =====
-- Steps that apply or remove one object, and what the server has seen after one that reports no error.
use kuberag.Prelude.{
  if◌then◌else◌, Option-cases, Text, ℕ, ◌≡◌, refl, sym, ◌⊎◌, inl, inr, Bool, true, false, Option,
  none, some, [], ◌∷◌, ◌++◌,
}
use mathlib.Core.Path.{subst}
use kuberag.Api.Retriever.{Retriever}
use kuberag.Api.Workloads.{Deployment, Workload, deployment, WorkloadKind, deployments}
use kuberag.Cluster.{
  ◌>>=◌, Got, found, refused, Server, Call, History, ApiError, M, Pass, call, is_not_found,
  set_controller_reference, read_workload, create_workload, update_workload, delete_workload,
}
use kuberag.History.{Past, Past-append, Adds, Adds-refl, Adds-trans}
use kuberag.Identity.{◌before◌}
use kuberag.Retriever.Apply.{
  Live, ignore_not_found, remove, create_or_update, apply_object, apply_owned, fetch_replicas,
  put_deployment, apply_deployment, settle,
}

-- A step that only adds calls, and after which, where it reports no error, `Q` holds of the history.
pub record Ensures (m : M Retriever (Option ApiError)) (Q : History → Type 0) : Type 0 where
  pub adds : (w : Pass Retriever) → Adds w (m w).1
  pub holds : (w : Pass Retriever) → (m w).0 ≡ none → Q (m w).1.log

-- A fact that later calls do not change.
abbrev pub Stays : (History → Type 0) → Type 0
Stays Q = (u w : Pass Retriever) → Adds u w → Q u.log → Q w.log

pub stays_of : {Q : History → Type 0} → ((k h : History) → Q h → Q (k ++ h)) → Stays Q
stays_of {Q} f u w a q = subst Q (sym a.split) (f a.calls u.log q)

pub before-Ensures :
    {m k : M Retriever (Option ApiError)} {Q R : History → Type 0}
    → Stays Q
    → Ensures m Q
    → Ensures k R
    → Ensures (m before k) (λ h. Q h × R h)
unfolding ◌before◌
before-Ensures {m} {k} stays em ek = record {
  adds = λ w. elim (Option-cases (m w).0) [
    | inl good ↦ rw (good, ◌before◌) (Adds-trans (em.adds w) (ek.adds (m w).1))
    | inr (e, bad) ↦ rw (bad, ◌before◌) (em.adds w)
  ];
  holds = λ w. elim (Option-cases (m w).0) [
    | inl good ↦
        rw (good, ◌before◌)
          (λ h. (stays (m w).1 _ (ek.adds (m w).1) (em.holds w good), ek.holds (m w).1 h))
    | inr (e, bad) ↦ rw (bad, ◌before◌) (λ h. cc)
  ];
}

module _ (s : Server) where
  -- At some point of the history the server took the object, as a new one or in place of an old one.
  abbrev pub Applied : Workload → History → Type 0
  Applied o h =
      Past (create_workload o) (λ k. s.ack k (create_workload o) ≡ none) h
      ⊎ Past (update_workload o) (λ k. s.ack k (update_workload o) ≡ none) h

  -- At some point of the history the object was deleted, or was not there.
  abbrev pub Removed : WorkloadKind → Text → History → Type 0
  Removed kind name =
      Past (delete_workload kind name)
        (λ k. ignore_not_found (s.ack k (delete_workload kind name)) ≡ none)

  pub Applied-append : (o : Workload) (k h : History) → Applied o h → Applied o (k ++ h)
  Applied-append o k h (inl a) = inl (Past-append _ _ k h a)
  Applied-append o k h (inr a) = inr (Past-append _ _ k h a)

  pub Applied-stays : (o : Workload) → Stays (Applied o)
  Applied-stays o = stays_of (Applied-append o)

  pub Removed-stays : (kind : WorkloadKind) (name : Text) → Stays (Removed kind name)
  Removed-stays kind name = stays_of (Past-append _ _)

  call-Ensures : (c : Call) → Ensures (call s c) (λ h. Unit)
  unfolding call
  call-Ensures c = record {
    adds = λ w. record { calls = c ∷ []; split = refl; same_object = refl };
    holds = λ w h. tt;
  }

  pub remove-Ensures :
      (kind : WorkloadKind) (name : Text) → Ensures (remove s kind name) (Removed kind name)
  unfolding remove call
  remove-Ensures kind name = record {
    adds = λ w. record { calls = delete_workload kind name ∷ []; split = refl; same_object = refl };
    holds = λ w h. Past.here h;
  }

  refuses-Ensures : (e : ApiError) (Q : History → Type 0) → Ensures (λ w. (some e, w)) Q
  refuses-Ensures e Q = record { adds = Adds-refl; holds = λ w h. cc }

  update-Ensures : (o : Workload) → Ensures (call s (update_workload o)) (Applied o)
  unfolding call
  update-Ensures o = record {
    adds = λ w. record { calls = update_workload o ∷ []; split = refl; same_object = refl };
    holds = λ w h. inr (Past.here h);
  }

  create-Ensures : (o : Workload) → Ensures (call s (create_workload o)) (Applied o)
  unfolding call
  create-Ensures o = record {
    adds = λ w. record { calls = create_workload o ∷ []; split = refl; same_object = refl };
    holds = λ w h. inl (Past.here h);
  }

  -- The branch of an error of a read: create what is missing.
  create_missing-Ensures :
      (o : Workload) (missing : Bool) (e : ApiError)
      → Ensures (if missing then call s (create_workload o) else (λ w. (some e, w))) (Applied o)
  create_missing-Ensures o true e = create-Ensures o
  create_missing-Ensures o false e = refuses-Ensures e (Applied o)

  create_or_update-Ensures :
      (o : Workload) (e : Option ApiError) → Ensures (create_or_update s o e) (Applied o)
  unfolding create_or_update
  create_or_update-Ensures o none = update-Ensures o
  create_or_update-Ensures o (some e) = create_missing-Ensures o (is_not_found e) e

  bind-Ensures :
      {A : Type 0} (m : M Retriever A) (k : A → M Retriever (Option ApiError))
      (Q : History → Type 0)
      → ((w : Pass Retriever) → Adds w (m w).1)
      → ((a : A) → Ensures (k a) Q)
      → Ensures (m >>= k) Q
  bind-Ensures m k Q adds each = record {
    adds = λ w. Adds-trans (adds w) ((each (m w).0).adds (m w).1);
    holds = λ w h. (each (m w).0).holds (m w).1 h;
  }

  pub apply_object-Ensures :
      (kind : WorkloadKind) (name : Text) (o : Workload)
      → Ensures (apply_object s kind name o) (Applied o)
  unfolding apply_object
  apply_object-Ensures kind name o =
      bind-Ensures (call s (read_workload kind name)) (create_or_update s o) (Applied o)
        (call-Ensures (read_workload kind name)).adds (create_or_update-Ensures o)

  pub own-Ensures :
      {k : M Retriever (Option ApiError)} {R : History → Type 0} (name : Text)
      → Ensures k R
      → Ensures (call s (set_controller_reference name) before k) R
  own-Ensures name e =
      let both = before-Ensures (λ u w a h. tt) (call-Ensures (set_controller_reference name)) e in
      record { adds = both.adds; holds = λ w h. (both.holds w h).1 }

  apply_owned-Ensures :
      (kind : WorkloadKind) (name : Text) (o : Workload)
      → Ensures (apply_owned s kind name o) (Applied o)
  unfolding apply_owned
  apply_owned-Ensures kind name o = own-Ensures name (apply_object-Ensures kind name o)

  -- The Deployment, with the replicas that it asks for, unless the old ones are kept.
  abbrev pub Deployed : Deployment → Bool → History → Type 0
  Deployed dep preserve h =
      (n : Option ℕ) × (preserve ≡ false → n ≡ dep.replicas)
      × Applied (deployment (record dep { replicas = n })) h

  some_replicas :
      {m : M Retriever (Option ApiError)} (dep : Deployment) (preserve : Bool) (n : Option ℕ)
      → (preserve ≡ false → n ≡ dep.replicas)
      → Ensures m (Applied (deployment (record dep { replicas = n })))
      → Ensures m (Deployed dep preserve)
  some_replicas dep preserve n f e = record { adds = e.adds; holds = λ w h. (n, f, e.holds w h) }

  put_deployment-Ensures :
      (dep : Deployment) (preserve : Bool) (got : Got (Option ℕ))
      → Ensures (put_deployment s dep preserve got) (Deployed dep preserve)
  unfolding put_deployment
  put_deployment-Ensures dep true (found n) = some_replicas dep true n (λ e. cc) (update-Ensures _)
  put_deployment-Ensures dep false (found n) =
      some_replicas dep false dep.replicas (λ e. refl) (update-Ensures _)
  put_deployment-Ensures dep preserve (refused e) =
      some_replicas dep preserve dep.replicas (λ e. refl)
        (create_missing-Ensures _ (is_not_found e) e)

  pub apply_deployment-Ensures :
      (live : Live) (dep : Deployment) (preserve : Bool)
      → Ensures (apply_deployment s live dep preserve) (Deployed dep preserve)
  unfolding apply_deployment fetch_replicas
  apply_deployment-Ensures live dep preserve =
      bind-Ensures (fetch_replicas s live dep.name) (put_deployment s dep preserve)
        (Deployed dep preserve)
        (λ w. record {
          calls = read_workload deployments dep.name ∷ [];
          split = refl;
          same_object = refl;
        })
        (put_deployment-Ensures dep preserve)

  -- The object that is wanted is there, or the one that is not wanted is gone.
  abbrev pub Settled : WorkloadKind → Text → Option Workload → History → Type 0
  Settled kind name none h = Removed kind name h
  Settled kind name (some o) h = Applied o h

  pub Settled-append :
      (kind : WorkloadKind) (name : Text) (o : Option Workload) (k h : History)
      → Settled kind name o h
      → Settled kind name o (k ++ h)
  Settled-append kind name none k h a = Past-append _ _ k h a
  Settled-append kind name (some o) k h a = Applied-append o k h a

  pub Settled-stays :
      (kind : WorkloadKind) (name : Text) (o : Option Workload) → Stays (Settled kind name o)
  Settled-stays kind name o = stays_of (Settled-append kind name o)

  pub settle-Ensures :
      (kind : WorkloadKind) (name : Text) (o : Option Workload)
      → Ensures (settle s kind name o) (Settled kind name o)
  unfolding settle
  settle-Ensures kind name none = remove-Ensures kind name
  settle-Ensures kind name (some o) = apply_owned-Ensures kind name o
