-- ===== src/Startup/Tests.antt =====
-- A start on two namespaces, and one that is refused.
use kuberag.Prelude.{
  put, if◌then◌else◌, text_eq, Text, codes, ◌≡◌, refl, true, false, [], ◌∷◌, arith,
}
use kuberag.Identity.Names.{member}
use kuberag.Startup.{
  is_space, Flags, Host, failure, main, split, trim_space, parse_watch_namespaces,
}
use kuberag.Startup.Namespaces.{has_key, AllNamed, parse_watch_namespaces-join}
use kuberag.Startup.Order.{Runs, main-Runs}

abbrev watching : Text → Host
watching names = record {
  getenv = λ key. if text_eq key (codes "WATCH_NAMESPACE") then names else [];
  succeeds = λ acts a. true;
}

abbrev flags : Flags
flags = record {
  metrics_bind_address = codes ":8080";
  health_probe_bind_address = codes ":8081";
  leader_elect = false;
}

only_commas : main (watching (codes " , ,")) flags [] ≡ (failure, [])
unfolding main trim_space split parse_watch_namespaces text_eq
only_commas = refl

two_namespaces :
    parse_watch_namespaces (codes "rag, docs ,rag") ≡ (codes "rag", tt) ∷ (codes "docs", tt) ∷ []
unfolding split parse_watch_namespaces trim_space put text_eq
two_namespaces = refl

main-Runs_example :
    Runs (watching (codes "rag, docs")) flags (main (watching (codes "rag, docs")) flags [])
main-Runs_example = main-Runs (watching (codes "rag, docs")) flags

named : AllNamed (codes "rag" ∷ codes "docs" ∷ [])
unfolding is_space
named = ground arith

parse_watch_namespaces-join_example :
    has_key (codes "docs") (parse_watch_namespaces (codes "rag,docs")) ≡ true
unfolding member text_eq
parse_watch_namespaces-join_example =
    parse_watch_namespaces-join (codes "rag" ∷ codes "docs" ∷ []) (codes "docs") named
