-- ===== src/Startup.antt =====
-- cmd/main.go: how the process starts. White space is that of ASCII, which the names of namespaces are
-- written in; the flags are parsed already, and what the calls answer is a parameter.
pub mod Namespaces
pub mod Order
pub mod Tests
use kuberag.Prelude.{put, ◌==◌, if◌then◌else◌, is_empty, Text, codes, ℕ, Bool, ◌||◌, List, [], ◌∷◌}

-- unicode.IsSpace, on ASCII.
pub is_space : ℕ → Bool
is_space c = c == b' ' || (c == 9 || (c == 10 || (c == 11 || (c == 12 || c == 13))))

pub trim_left : Text → Text
trim_left [] = []
trim_left (c ∷ s) = let rest = trim_left s in if is_space c then rest else c ∷ s

-- Without the spaces at its end.
pub trim_end : Text → Text
trim_end [] = []
trim_end (c ∷ s) = elim (trim_end s) [ [] ↦ if is_space c then [] else c ∷ [] | d ∷ t ↦ c ∷ d ∷ t ]

-- strings.TrimSpace
unfoldable pub trim_space : Text → Text
unfolding trim_left trim_end is_space
trim_space s = trim_left (trim_end s)

onto_first : ℕ → List Text → List Text
onto_first c [] = (c ∷ []) ∷ []
onto_first c (x ∷ xs) = (c ∷ x) ∷ xs

-- strings.Split with a separator of one byte.
unfoldable pub split : ℕ → Text → List Text
unfolding onto_first
split sep [] = [] ∷ []
split sep (c ∷ s) = let rest = split sep s in if c == sep then [] ∷ rest else onto_first c rest

-- The keys of a map to `cache.Config{}`.
abbrev pub Namespaces : Type 0
Namespaces = List (Text × Unit {0})

-- The loop of parseWatchNamespaces.
pub add_namespaces : List Text → Namespaces → Namespaces
add_namespaces [] m = m
add_namespaces (piece ∷ rest) m =
    let namespace = trim_space piece in
    add_namespaces rest (if is_empty namespace then m else put namespace tt m)

unfoldable pub parse_watch_namespaces : Text → Namespaces
unfolding add_namespaces
parse_watch_namespaces raw = add_namespaces (split b',' raw) []

pub record Flags : Type 0 where
  pub metrics_bind_address : Text
  pub health_probe_bind_address : Text
  pub leader_elect : Bool

-- `ctrl.Options`; no namespaces stand for all.
pub record ManagerOptions : Type 0 where
  pub metrics_bind_address : Text
  pub health_probe_bind_address : Text
  pub leader_election : Bool
  pub leader_election_id : Text
  pub default_namespaces : Namespaces

pub data Controller : Type 0 where
  knowledge_base retriever vector_index backup restore : Controller

-- The calls of main that may fail; ctrl.GetConfigOrDie ends the process itself where it does.
pub data Act : Type 0 where
  new_exporter get_config : Act
  new_manager : ManagerOptions → Act
  set_up_with_manager : Controller → Act
  add_healthz_check add_readyz_check : Act
  start : Act

-- The environment, and whether a call succeeds after those before it.
pub record Host : Type 0 where
  pub getenv : Text → Text
  pub succeeds : List Act → Act → Bool

-- `os.Exit(1)`, or the end of main.
pub data Exit : Type 0 where
  failure success : Exit

-- The calls so far, the last one first.
abbrev pub Main : Type 0
Main = List Act → Exit × List Act

module _ (host : Host) (flags : Flags) where
  -- `if err := …; err != nil { os.Exit(1) }`, and the code behind it.
  pub step : Act → Main → Main
  step a rest acts = if host.succeeds acts a then rest (a ∷ acts) else (failure, a ∷ acts)

  pub options : Namespaces → ManagerOptions
  options namespaces = record {
    metrics_bind_address = flags.metrics_bind_address;
    health_probe_bind_address = flags.health_probe_bind_address;
    leader_election = flags.leader_elect;
    leader_election_id = codes "kuberag.furkan.dev";
    default_namespaces = namespaces;
  }

  pub run_manager : Namespaces → Main
  unfolding step options
  run_manager namespaces = step get_config (
      step (new_manager (options namespaces)) (
        step (set_up_with_manager knowledge_base) (
          step (set_up_with_manager retriever) (
            step (set_up_with_manager vector_index) (
              step (set_up_with_manager backup) (
                step (set_up_with_manager restore) (
                  step add_healthz_check
                    (step add_readyz_check (step start (λ acts. (success, acts)))))))))))

  -- `if raw := …; raw != "" { … }`, and the code behind it.
  pub restrict : Text → Main
  unfolding run_manager
  restrict raw =
      let namespaces = parse_watch_namespaces raw in
      if is_empty raw
      then run_manager []
      else if is_empty namespaces
      then (λ acts. (failure, acts))
      else run_manager namespaces

  -- initTracer, and the code behind its error.
  pub init_tracer : Main → Main
  unfolding step
  init_tracer rest =
      if is_empty (host.getenv (codes "OTEL_EXPORTER_OTLP_ENDPOINT"))
      then rest
      else step new_exporter rest

  unfoldable pub main : Main
  unfolding restrict init_tracer
  main = init_tracer (restrict (trim_space (host.getenv (codes "WATCH_NAMESPACE"))))
