-- ===== src/Startup/Order.antt =====
-- What main has done when it starts the manager, and where it stops.
use kuberag.Prelude.{
  if◌then◌else◌, Bool-cases, is_empty, Text, codes, ◌≡◌, refl, sym, ◌≢◌, ◌⊎◌, inl, inr, true, false,
  List, [], ◌∷◌, arith,
}
use mathlib.Core.Path.{subst}
use kuberag.Startup.{
  trim_space, Namespaces, parse_watch_namespaces, Flags, ManagerOptions, knowledge_base, retriever,
  vector_index, backup, restore, Act, new_exporter, get_config, new_manager, set_up_with_manager,
  add_healthz_check, add_readyz_check, start, Host, Exit, failure, success, Main, step, options,
  run_manager, restrict, init_tracer, main,
}

-- Every call succeeded.
abbrev pub AllSucceeded : Host → List Act → Type 0
AllSucceeded host [] = Unit {0}
AllSucceeded host (a ∷ acts) = (host.succeeds acts a ≡ true) × AllSucceeded host acts

abbrev pub rest_of : List Act → List Act
rest_of [] = []
rest_of (a ∷ acts) = acts

-- The calls of `run_manager`, the last one first.
abbrev pub served : ManagerOptions → List Act → List Act
served o before =
    start
    ∷ add_readyz_check
    ∷ add_healthz_check
    ∷ set_up_with_manager restore
    ∷ set_up_with_manager backup
    ∷ set_up_with_manager vector_index
    ∷ set_up_with_manager retriever
    ∷ set_up_with_manager knowledge_base
    ∷ new_manager o
    ∷ get_config
    ∷ before

AllSucceeded-rest :
    (host : Host) (acts : List Act) → AllSucceeded host acts → AllSucceeded host (rest_of acts)
AllSucceeded-rest host [] h = tt
AllSucceeded-rest host (a ∷ acts) h = h.1

module _ (host : Host) (flags : Flags) where
  abbrev pub watch : Text
  watch = trim_space (host.getenv (codes "WATCH_NAMESPACE"))

  -- Every namespace where WATCH_NAMESPACE is blank, and those that it lists, one at least, otherwise.
  abbrev pub restriction : Namespaces
  restriction = if is_empty watch then [] else parse_watch_namespaces watch

  abbrev pub IsGuarded : Type 0
  IsGuarded = (is_empty watch ≡ true) ⊎ (is_empty restriction ≡ false)

  -- Main stops behind the first call that fails. It starts the manager only behind every controller and
  -- both checks, on the namespaces that are asked for; and it ends well only where that succeeded too.
  pub record Runs (out : Exit × List Act) : Type 0 where
    pub before : AllSucceeded host (rest_of out.1)
    pub started :
        (acts : List Act)
        → out.1 ≡ start ∷ acts
        → IsGuarded × ((trace : List Act) × (out.1 ≡ served (options host flags restriction) trace))
    pub well :
        out.0 ≡ success → AllSucceeded host out.1 × ((acts : List Act) × (out.1 ≡ start ∷ acts))

  stopped :
      (a : Act) (acts : List Act) → AllSucceeded host acts → a ≢ start → Runs (failure, a ∷ acts)
  stopped a acts good other = record {
    before = good;
    started = λ l e. absurd (ground (arith, e, other));
    well = λ e. cc;
  }

  record Keeps (m : Main) (acts : List Act) : Type 0 where
    run : AllSucceeded host acts → Runs (m acts)

  step-Keeps :
      {a : Act} {rest : Main} {acts : List Act}
      → a ≢ start
      → Keeps rest (a ∷ acts)
      → Keeps (step host flags a rest) acts
  unfolding step
  step-Keeps {a} {rest} {acts} other go = elim (Bool-cases (host.succeeds acts a)) [
    | inl e ↦ record { run = λ good. rw (e, step) (go.run (e, good)) }
    | inr e ↦ record { run = λ good. rw (e, step) (stopped a acts good other) }
  ]

  start-Keeps :
      (trace : List Act)
      → IsGuarded
      → Keeps
          (step host flags start (λ acts. (success, acts)))
          (rest_of (served (options host flags restriction) trace))
  unfolding step
  start-Keeps trace guarded =
      let acts = rest_of (served (options host flags restriction) trace) in
      elim (Bool-cases (host.succeeds acts start)) [
        | inl e ↦ record {
          run = λ good.
              rw (e, step)
                (record {
                  before = good;
                  started = λ l h. (guarded, (trace, refl));
                  well = λ h. ((e, good), (acts, refl));
                });
        }
        | inr e ↦ record {
          run = λ good.
              rw (e, step)
                (record {
                  before = good;
                  started = λ l h. (guarded, (trace, refl));
                  well = λ h. cc;
                });
        }
      ]

  run_manager-Keeps :
      (trace : List Act) → IsGuarded → Keeps (run_manager host flags restriction) trace
  unfolding run_manager
  run_manager-Keeps trace guarded =
      step-Keeps (λ e. cc)
        (step-Keeps (λ e. cc)
          (step-Keeps (λ e. cc)
            (step-Keeps (λ e. cc)
              (step-Keeps (λ e. cc)
                (step-Keeps (λ e. cc)
                  (step-Keeps (λ e. cc)
                    (step-Keeps (λ e. cc) (step-Keeps (λ e. cc) (start-Keeps trace guarded)))))))))

  guarded_or_not :
      IsGuarded ⊎ ((is_empty watch ≡ false) × (is_empty (parse_watch_namespaces watch) ≡ true))
  guarded_or_not = elim (Bool-cases (is_empty watch)) [
    | inl blank ↦ inl (inl blank)
    | inr set ↦ elim (Bool-cases (is_empty (parse_watch_namespaces watch))) [
      | inl none_valid ↦ inr (set, none_valid)
      | inr some_valid ↦ inl (inr (rw set some_valid))
    ]
  ]

  restrict-run_manager : IsGuarded → restrict host flags watch ≡ run_manager host flags restriction
  unfolding restrict
  restrict-run_manager guarded = elim (Bool-cases (is_empty watch)) [
    | inl blank ↦ rw (blank, restrict)
    | inr set ↦ elim guarded [
      | inl blank ↦ rw (blank, restrict)
      | inr some_valid ↦ rw (set, rw set at some_valid, restrict)
    ]
  ]

  refused-Keeps :
      (acts : List Act)
      → ((l : List Act) → acts ≢ start ∷ l)
      → is_empty watch ≡ false
      → is_empty (parse_watch_namespaces watch) ≡ true
      → Keeps (restrict host flags watch) acts
  unfolding restrict
  refused-Keeps acts other set none_valid = record {
    run = λ good.
        rw (set, none_valid, restrict)
          (record {
            before = AllSucceeded-rest host acts good;
            started = λ l e. absurd (other l e);
            well = λ e. cc;
          });
  }

  restrict-Keeps :
      (acts : List Act)
      → ((l : List Act) → acts ≢ start ∷ l)
      → Keeps (restrict host flags watch) acts
  restrict-Keeps acts other = elim guarded_or_not [
    | inl guarded ↦
        subst (λ m. Keeps m acts) (sym (restrict-run_manager guarded))
          (run_manager-Keeps acts guarded)
    | inr (set, none_valid) ↦ refused-Keeps acts other set none_valid
  ]

  main-Keeps : Keeps (main host flags) []
  unfolding main
  main-Keeps = elim (Bool-cases (is_empty (host.getenv (codes "OTEL_EXPORTER_OTLP_ENDPOINT")))) [
    | inl untraced ↦ rw (untraced, main, init_tracer) (restrict-Keeps [] (λ l e. cc))
    | inr traced ↦
        rw (traced, main, init_tracer)
          (step-Keeps (λ e. cc) (restrict-Keeps (new_exporter ∷ []) (λ l e. cc)))
  ]

  -- Main stops behind the first call that fails. It starts the manager only behind the read of the
  -- configuration, all five controllers and both checks, on every namespace where WATCH_NAMESPACE is blank, and otherwise on those that it lists,
  -- one at least; and it ends without an error only where all that and the start itself succeeded.
  pub main-Runs : Runs (main host flags [])
  main-Runs = main-Keeps.run tt
