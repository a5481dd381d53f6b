-- ===== src/Prelude/Maps.antt =====
-- A Go map with string keys, as a list of pairs.
use mathlib.Core.List.{List, [], ◌∷◌}
use kuberag.Prelude.Strings.{Text, text_eq}
use kuberag.Prelude.Tests.{if◌then◌else◌}

module _ {ℓ} {A : Type ℓ} where
  -- The assignment `m[key] = x`.
  unfoldable pub put : Text → A → List (Text × A) → List (Text × A)
  put key x [] = (key, x) ∷ []
  put key x ((k, y) ∷ m) =
      let rest = put key x m in if text_eq k key then (key, x) ∷ m else (k, y) ∷ rest

  -- `m[key]`, with the zero value where the key is missing.
  unfoldable pub get_or : A → Text → List (Text × A) → A
  get_or zero key [] = zero
  get_or zero key ((k, y) ∷ m) = let rest = get_or zero key m in if text_eq k key then y else rest
