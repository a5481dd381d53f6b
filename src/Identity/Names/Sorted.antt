-- ===== src/Identity/Names/Sorted.antt =====
-- The names in a worker's rule: which they are, and their order.
use kuberag.Prelude.{
  is_empty, text_eq, Text, text_eq_iff, ◌≡◌, refl, ap, ◌∙◌, true, false, not, ◌&&◌, ◌||◌, List, [],
  ◌∷◌, arith,
}
use kuberag.Identity.Names.{text_ltb, member, unique, insert, sort_strings, resource_names}

text_ltb_irrefl : (s : Text) → text_ltb s s ≡ false
unfolding text_ltb
text_ltb_irrefl [] = refl
text_ltb_irrefl (c ∷ s) = ground (arith, text_ltb_irrefl s)

-- Of two texts that differ, one is below the other.
text_ltb_total : (s t : Text) → text_ltb s t ≡ false → text_eq s t ≡ false → text_ltb t s ≡ true
unfolding text_ltb text_eq
text_ltb_total [] [] l e = ground arith
text_ltb_total [] (d ∷ t) l e = ground arith
text_ltb_total (c ∷ s) [] l e = refl
text_ltb_total (c ∷ s) (d ∷ t) l e = ground (arith, text_ltb_total s t)

-- Each name below the next.
abbrev pub Ascending : List Text → Type 0
Ascending [] = Unit
Ascending (x ∷ []) = Unit
Ascending (x ∷ y ∷ ys) = (text_ltb x y ≡ true) × Ascending (y ∷ ys)

member-insert :
    (z x : Text) (xs : List Text) → member z (insert x xs) ≡ (text_eq x z || member z xs)
unfolding member insert
member-insert z x [] = refl
member-insert z x (y ∷ ys) = ground (arith, member-insert z x ys)

member-sort_strings : (z : Text) (xs : List Text) → member z (sort_strings xs) ≡ member z xs
unfolding sort_strings member
member-sort_strings z [] = refl
member-sort_strings z (x ∷ xs) =
    member-insert z x (sort_strings xs) ∙ ap (λ b. text_eq x z || b) (member-sort_strings z xs)

member-unique :
    (z : Text) (xs : List Text) → member z (unique xs) ≡ (not (is_empty z) && member z xs)
unfolding member unique
member-unique z [] = ground arith
member-unique z (x ∷ xs) = ground (arith, member-unique z xs, text_eq_iff x z)

insert-Ascending :
    (x : Text) (xs : List Text) → Ascending xs → member x xs ≡ false → Ascending (insert x xs)
unfolding insert member
insert-Ascending x [] a fresh = tt
insert-Ascending x (y ∷ []) a fresh = ground (arith, text_ltb_total y x)
insert-Ascending x (y ∷ z ∷ zs) a fresh =
    ground (arith, text_ltb_total y x, insert-Ascending x (z ∷ zs))

-- Names without repeats.
Distinct : List Text → Type 0
Distinct [] = Unit
Distinct (x ∷ xs) = (member x xs ≡ false) × Distinct xs

unique-Distinct : (xs : List Text) → Distinct (unique xs)
unfolding unique Distinct
unique-Distinct [] = tt
unique-Distinct (x ∷ xs) = ground (arith, unique-Distinct xs)

sort_strings-Ascending : (xs : List Text) → Distinct xs → Ascending (sort_strings xs)
unfolding sort_strings Distinct
sort_strings-Ascending [] d = tt
sort_strings-Ascending (x ∷ xs) (fresh, d) =
    insert-Ascending x (sort_strings xs) (sort_strings-Ascending xs d)
      (member-sort_strings x xs ∙ fresh)

-- The names of a worker's rule are exactly the names asked for that are not empty, in strictly
-- ascending order: none is there twice.
pub resource_names-exact :
    (xs : List Text)
    → Ascending (resource_names xs)
      × ((z : Text) → member z (resource_names xs) ≡ (not (is_empty z) && member z xs))
unfolding resource_names
resource_names-exact xs = (
  sort_strings-Ascending (unique xs) (unique-Distinct xs),
  λ z. member-sort_strings z (unique xs) ∙ member-unique z xs,
)
