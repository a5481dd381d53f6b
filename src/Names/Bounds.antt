-- ===== src/Names/Bounds.antt =====
-- The lengths of the names, and which of them differ.
use kuberag.Prelude.{
  leb, leb→le, Bool-cases, length, take, length-append, length-take, trim_right, Text, codes,
  length-trim_right, ℕ, ◌+◌, ◌-◌, ◌*◌, ◌≤◌, ◌<◌, ◌≡◌, refl, sym, ap, ◌∙◌, ◌≢◌, inl, inr, false, ◌∷◌,
  ◌++◌, arith,
}
use mathlib.Core.List.{reverse, reverse-append}
use kuberag.Platform.{Platform, HexLength}
use kuberag.Names.{
  hex_prefix, trunc_name, name_with_suffix, result_config_map_name, checkpoint_config_map_name,
  spec_config_map_name,
}

length-hex_prefix :
    (p : Platform) (n : ℕ) (t : Text) → HexLength p → n ≤ 32 → length (hex_prefix p n t) ≡ 2 * n
unfolding hex_prefix
length-hex_prefix p n t law h = omega (arith, law t, length-take (2 * n) (p.sha256_hex t))

le_false : (a b : ℕ) → a ≤ b → leb a b ≡ false → ⊥
le_false a b h e = ground arith

length-shortened :
    (n : ℕ) (name tail : Text)
    → length (trim_right b'-' (take n name) ++ b'-' ∷ tail) ≤ n + 1 + length tail
length-shortened n name tail = omega (
  arith,
  length-append (trim_right b'-' (take n name)) (b'-' ∷ tail),
  length-trim_right b'-' (take n name),
  length-take n name,
)

-- A name is kept where it has 63 bytes or less, and shortened to at most 63 where it has more; the
-- shortened name ends in a dash and the first eight digits of the hash of the whole name. This is
-- for a hash of the documented length.
pub trunc_name_fits :
    (p : Platform) (name : Text)
    → HexLength p
    → (length (trunc_name p name) ≤ 63)
      × (length name ≤ 63 → trunc_name p name ≡ name)
      × (63 < length name
          → (base : Text) × (trunc_name p name ≡ base ++ b'-' ∷ hex_prefix p 4 name))
unfolding trunc_name
trunc_name_fits p name law = elim (Bool-cases (leb (length name) 63)) [
  | inl short ↦
      rw short (leb→le _ _ short, (λ _. refl), λ long. absurd (omega (arith, leb→le _ _ short)))
  | inr long ↦ rw long (
    omega (
      arith,
      length-shortened (62 - length (hex_prefix p 4 name)) name (hex_prefix p 4 name),
      length-hex_prefix p 4 name law (omega arith),
    ),
    (λ short. absurd (le_false _ _ short long)),
    λ _. (trim_right b'-' (take (62 - length (hex_prefix p 4 name)) name), refl),
  )
]

-- A name with a suffix fits too, for a suffix of at most 54 bytes (where the slice of the source is
-- in range), and always ends in the suffix.
pub name_with_suffix_fits :
    (p : Platform) (name suffix : Text)
    → HexLength p
    → length suffix ≤ 54
    → (length (name_with_suffix p name suffix) ≤ 63)
      × ((base : Text) × (name_with_suffix p name suffix ≡ base ++ suffix))
unfolding name_with_suffix
name_with_suffix_fits p name suffix law room =
    elim (Bool-cases (leb (length name + length suffix) 63)) [
      | inl short ↦
          rw short (omega (arith, leb→le _ _ short, length-append name suffix), (name, refl))
      | inr long ↦
          let hash = hex_prefix p 4 (name ++ suffix) in
          let max_base = 63 - length suffix - 1 - length hash in
          let base = trim_right b'-' (take max_base name) ++ b'-' ∷ hash in
          rw long (
            omega (
              arith,
              length-append base suffix,
              length-shortened max_base name hash,
              length-hex_prefix p 4 (name ++ suffix) law (omega arith),
            ),
            (base, refl),
          )
    ]

name_with_suffix-eq :
    (p : Platform) (name suffix : Text)
    → (base : Text) × (name_with_suffix p name suffix ≡ base ++ suffix)
unfolding name_with_suffix
name_with_suffix-eq p name suffix = elim (Bool-cases (leb (length name + length suffix) 63)) [
  | inl short ↦ rw short (name, refl)
  | inr long ↦
      let hash = hex_prefix p 4 (name ++ suffix) in
      let max_base = 63 - length suffix - 1 - length hash in
      rw long (trim_right b'-' (take max_base name) ++ b'-' ∷ hash, refl)
]

abbrev penultimate : Text → ℕ
penultimate (c ∷ d ∷ s) = d
penultimate s = 0

-- The last byte but one of a text that ends in a suffix.
same_ending :
    {s t : Text} (a b x y : Text)
    → s ≡ x ++ a
    → t ≡ y ++ b
    → s ≡ t
    → penultimate (reverse a ++ reverse x) ≡ penultimate (reverse b ++ reverse y)
same_ending a b x y e f g =
    ap penultimate (sym (reverse-append x a) ∙ ap reverse (sym e ∙ g ∙ f) ∙ reverse-append y b)

-- The three ConfigMaps of one Job have three different names, whatever the Job is called and
-- whatever the hash, so that a worker's result is never taken for its checkpoint or its spec.
pub config_map_names_differ :
    (p : Platform) (job : Text)
    → (result_config_map_name p job ≢ checkpoint_config_map_name p job)
      × (result_config_map_name p job ≢ spec_config_map_name p job)
      × (checkpoint_config_map_name p job ≢ spec_config_map_name p job)
unfolding result_config_map_name checkpoint_config_map_name spec_config_map_name
config_map_names_differ p job =
    let (x, e) = name_with_suffix-eq p job (codes "-result") in
    let (y, f) = name_with_suffix-eq p job (codes "-checkpoint") in
    let (z, g) = name_with_suffix-eq p job (codes "-spec") in
    (
      λ h. absurd (omega (arith, same_ending (codes "-result") (codes "-checkpoint") x y e f h)),
      λ h. absurd (omega (arith, same_ending (codes "-result") (codes "-spec") x z e g h)),
      λ h. absurd (omega (arith, same_ending (codes "-checkpoint") (codes "-spec") y z f g h)),
    )
