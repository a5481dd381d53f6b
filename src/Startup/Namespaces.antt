-- ===== src/Startup/Namespaces.antt =====
-- parseWatchNamespaces on a list of names that are joined by commas.
use kuberag.Prelude.{
  put, ◌==◌, is_empty, text_eq, Text, text_eq_sound, ◌≡◌, refl, ap, ◌∙◌, Bool, false, ◌||◌, List,
  [], ◌∷◌, ◌++◌, arith,
}
use kuberag.Startup.{
  is_space, trim_left, trim_end, trim_space, split, Namespaces, add_namespaces,
  parse_watch_namespaces,
}
use kuberag.Identity.Names.{member}

-- Whether a namespace is a key of the map.
abbrev pub has_key : Text → Namespaces → Bool
has_key x [] = false
has_key x ((k, v) ∷ m) = text_eq k x || has_key x m

has_key-put : (x k : Text) (m : Namespaces) → has_key x (put k tt m) ≡ (text_eq k x || has_key x m)
unfolding put
has_key-put x k [] = refl
has_key-put x k ((j, v) ∷ m) = grind (arith, has_key-put x k m, text_eq_sound j k)

-- A name as Kubernetes takes it: with no comma and no white space.
abbrev pub AllPlain : Text → Type 0
AllPlain [] = Unit {0}
AllPlain (c ∷ s) = ((c == b',') ≡ false) × (is_space c ≡ false) × AllPlain s

trim_end-plain : (x : Text) → AllPlain x → trim_end x ≡ x
unfolding trim_end
trim_end-plain [] h = refl
trim_end-plain (c ∷ []) h = ground (arith, h)
trim_end-plain (c ∷ d ∷ x) h = rw (trim_end-plain (d ∷ x) h.2, trim_end)

trim_space-plain : (x : Text) → AllPlain x → trim_space x ≡ x
unfolding trim_space trim_left
trim_space-plain [] h = refl
trim_space-plain (c ∷ x) h = rw (trim_end-plain (c ∷ x) h) (ground (arith, h))

abbrev pub join : List Text → Text
join [] = []
join (x ∷ []) = x
join (x ∷ y ∷ xs) = x ++ (b',' ∷ join (y ∷ xs))

split-plain : (x : Text) → AllPlain x → split b',' x ≡ x ∷ []
unfolding split
split-plain [] h = refl
split-plain (c ∷ x) h = rw (split-plain x h.2, h.0)

split-append : (x s : Text) → AllPlain x → split b',' (x ++ (b',' ∷ s)) ≡ x ∷ split b',' s
unfolding split
split-append [] s h = refl
split-append (c ∷ x) s h = rw (split-append x s h.2, h.0)

abbrev pub AllNamed : List Text → Type 0
AllNamed [] = Unit {0}
AllNamed (x ∷ xs) = ((is_empty x ≡ false) × AllPlain x) × AllNamed xs

split-join : (x : Text) (xs : List Text) → AllNamed (x ∷ xs) → split b',' (join (x ∷ xs)) ≡ x ∷ xs
split-join x [] h = split-plain x h.0.1
split-join x (y ∷ xs) h = split-append x (join (y ∷ xs)) h.0.1 ∙ ap (x ∷◌) (split-join y xs h.1)

has_key-add_namespaces :
    (x : Text) (ns : List Text) (m : Namespaces)
    → AllNamed ns
    → has_key x (add_namespaces ns m) ≡ (member x ns || has_key x m)
unfolding add_namespaces member
has_key-add_namespaces x [] m h = refl
has_key-add_namespaces x (n ∷ ns) m ((full, plain), h) =
    let later = has_key-add_namespaces x ns (put n tt m) h in
    let first = has_key-put x n m in rw (trim_space-plain n plain, full) (ground arith)

-- parseWatchNamespaces reads back a list of names that are joined by commas: where no name is empty or
-- has a comma or white space, the keys of the map are exactly the names, and none at all for no names.
pub parse_watch_namespaces-join :
    (ns : List Text) (x : Text)
    → AllNamed ns
    → has_key x (parse_watch_namespaces (join ns)) ≡ member x ns
unfolding parse_watch_namespaces
parse_watch_namespaces-join [] x h = unfold split add_namespaces trim_space member in refl
parse_watch_namespaces-join (n ∷ ns) x h =
    rw (split-join n ns h) (has_key-add_namespaces x (n ∷ ns) [] h ∙ ground arith)
