-- ===== src/Tests/Names.antt =====
-- Names, labels and lists of names.
use kuberag.Prelude.{
  length, is_empty, Text, codes, ℕ, zero, suc, ◌≤◌, ◌<◌, ◌≡◌, refl, not, ◌&&◌, List, [], ◌∷◌, ◌++◌,
}
use kuberag.Platform.{HexLength}
use kuberag.Api.Runs.{IngestionRun, RunPhase}
use kuberag.Names.{hex_prefix, trunc_name}
use kuberag.Names.Bounds.{trunc_name_fits}
use kuberag.Identity.Names.{resource_names, member}
use kuberag.Identity.Names.Sorted.{Ascending, resource_names-exact}
use kuberag.Ingestion.Runs.Prune.{pruned, terminal_runs}
use kuberag.Ingestion.Runs.Prune.Oldest.{IsSplit, pruned-IsSplit}
use kuberag.Fixtures.{platform, run, repeat}

hex_64 : HexLength platform
hex_64 t = refl

abbrev long_name : Text
long_name = repeat 70 b'k'

trunc_name_fits_example :
    (length (trunc_name platform long_name) ≤ 63)
    × (length long_name ≤ 63 → trunc_name platform long_name ≡ long_name)
    × (63 < length long_name
        → (base : Text) × (trunc_name platform long_name
            ≡ base ++ b'-' ∷ hex_prefix platform 4 long_name))
trunc_name_fits_example = trunc_name_fits platform long_name hex_64

abbrev config_maps : List Text
config_maps = codes "spec" ∷ [] ∷ codes "result" ∷ codes "spec" ∷ []

resource_names-exact_example :
    Ascending (resource_names config_maps)
    × ((z : Text)
        → member z (resource_names config_maps) ≡ (not (is_empty z) && member z config_maps))
resource_names-exact_example = resource_names-exact config_maps

abbrev runs_down_to : ℕ → List IngestionRun
runs_down_to zero = run RunPhase.running 0 ∷ []
runs_down_to (suc n) = run RunPhase.succeeded (suc n) ∷ runs_down_to n

pruned-IsSplit_example :
    (kept : List IngestionRun) × IsSplit
      (pruned (runs_down_to 12))
      kept
      (terminal_runs (runs_down_to 12))
pruned-IsSplit_example = pruned-IsSplit (runs_down_to 12)
