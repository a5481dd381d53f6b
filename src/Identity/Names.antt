-- ===== src/Identity/Names.antt =====
-- The set of ConfigMap names in the rule of a worker's role, as worker_identity.go builds it:
-- a map drops the repeats, and sort.Strings orders the keys.
pub mod Sorted
use kuberag.Prelude.{
  ltb, ◌==◌, if◌then◌else◌, is_empty, text_eq, Text, Bool, true, false, ◌&&◌, ◌||◌, List, [], ◌∷◌,
}

-- Byte order on strings.
pub text_ltb : Text → Text → Bool
text_ltb s [] = false
text_ltb [] (d ∷ t) = true
text_ltb (c ∷ s) (d ∷ t) = ltb c d || (c == d && text_ltb s t)

unfoldable pub member : Text → List Text → Bool
member x [] = false
member x (y ∷ ys) = text_eq y x || member x ys

-- `unique[configMap] = struct{}{}` for each name that is not empty.
unique : List Text → List Text
unique [] = []
unique (x ∷ xs) = let rest = unique xs in if is_empty x || member x rest then rest else x ∷ rest

insert : Text → List Text → List Text
insert x [] = x ∷ []
insert x (y ∷ ys) = if text_ltb y x then y ∷ insert x ys else x ∷ y ∷ ys

sort_strings : List Text → List Text
unfolding insert
sort_strings [] = []
sort_strings (x ∷ xs) = insert x (sort_strings xs)

unfoldable pub resource_names : List Text → List Text
unfolding unique sort_strings
resource_names xs = sort_strings (unique xs)
