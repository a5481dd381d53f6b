-- ===== src/Labels/RoundTrip.antt =====
-- chunkingLabel, and what jobEffectiveChunking reads back.
use kuberag.Prelude.{
  ltb, ltb→lt, Bool-cases, is_empty, Text, ℕ, zero, suc, ◌+◌, ◌-◌, ◌*◌, ◌/◌, ◌%◌, ◌<◌, ◌≡◌, refl,
  ◌∙◌, ◌≢◌, inl, inr, true, false, some, [], ◌∷◌, ◌++◌, arith,
}
use kuberag.Api.KnowledgeBase.{ChunkingSpec}
use kuberag.Api.Jobs.{Job}
use kuberag.Labels.{
  is_digit, digits, sprintf_d, scan, sscanf_d, cut, split3, chunking_label, parse_label,
  job_effective_chunking,
}

abbrev AllDigits : Text → Type 0
AllDigits [] = Unit
AllDigits (c ∷ s) = (is_digit c ≡ true) × AllDigits s

AllDigits-append : (s t : Text) → AllDigits s → AllDigits t → AllDigits (s ++ t)
AllDigits-append [] t h k = k
AllDigits-append (c ∷ s) t h k = (h.0, AllDigits-append s t h.1 k)

is_digit-add : (d : ℕ) → d < 10 → is_digit (b'0' + d) ≡ true
is_digit-add d h = ground arith

digits-AllDigits : (f n : ℕ) → AllDigits (digits f n)
unfolding digits
digits-AllDigits zero n = tt
digits-AllDigits (suc f) n = elim (Bool-cases (ltb n 10)) [
  | inl small ↦ rw (small, digits) (is_digit-add n (ltb→lt n 10 small), tt)
  | inr big ↦
      rw (big, digits)
        (AllDigits-append (digits f (n / 10)) _ (digits-AllDigits f (n / 10))
          (is_digit-add (n % 10) (omega arith), tt))
]

scan-append :
    (acc : ℕ) (s : Text) (d : ℕ)
    → AllDigits s
    → d < 10
    → scan acc (s ++ (b'0' + d) ∷ []) ≡ scan acc s * 10 + d
unfolding scan
scan-append acc [] d h k = ground (arith, is_digit-add d k)
scan-append acc (c ∷ s) d h k = rw h.0 (scan-append (acc * 10 + (c - b'0')) s d h.1 k)

scan-digits : (f n : ℕ) → n < f → scan 0 (digits f n) ≡ n
unfolding digits
scan-digits zero n h = absurd (omega arith)
scan-digits (suc f) n h = elim (Bool-cases (ltb n 10)) [
  | inl small ↦
      rw (small, digits) (scan-append 0 [] n tt (ltb→lt n 10 small) ∙ unfold scan in omega arith)
  | inr big ↦
      rw (big, digits)
        (scan-append 0 (digits f (n / 10)) (n % 10) (digits-AllDigits f (n / 10)) (omega arith)
          ∙ omega (arith, scan-digits f (n / 10) (below f n h big)))
]
  where
    below : (f n : ℕ) → n < suc f → ltb n 10 ≡ false → n / 10 < f
    below f n h big = ground arith

-- What is printed in decimal is read back, whatever the number.
sscanf_d-sprintf_d : (n : ℕ) → sscanf_d (sprintf_d n) ≡ n
unfolding sscanf_d sprintf_d
sscanf_d-sprintf_d n = scan-digits (suc n) n (omega arith)

-- No byte of the text is the separator.
abbrev pub Lacks : ℕ → Text → Type 0
Lacks x [] = Unit
Lacks x (c ∷ s) = (c ≢ x) × Lacks x s

AllDigits-Lacks : (s : Text) → AllDigits s → Lacks b'.' s
AllDigits-Lacks [] h = tt
AllDigits-Lacks (c ∷ s) h = (ground arith, AllDigits-Lacks s h.1)

sprintf_d-Lacks : (n : ℕ) → Lacks b'.' (sprintf_d n)
unfolding sprintf_d
sprintf_d-Lacks n = AllDigits-Lacks (digits (suc n) n) (digits-AllDigits (suc n) n)

cut-append : (x : ℕ) (s t : Text) → Lacks x s → cut x (s ++ x ∷ t) ≡ some (s, t)
unfolding cut
cut-append x [] t h = ground arith
cut-append x (c ∷ s) t h = rw (cut-append x s t h.1) (ground arith)

split3-append :
    (x : ℕ) (a b c : Text)
    → Lacks x a
    → Lacks x b
    → split3 x (a ++ x ∷ (b ++ x ∷ c)) ≡ some (a, b, c)
unfolding split3
split3-append x a b c h k =
    rw (cut-append x a (b ++ x ∷ c) h, split3) (rw (cut-append x b c k, split3))

is_empty-append : (s t : Text) → is_empty s ≡ false → is_empty (s ++ t) ≡ false
is_empty-append [] t h = cc
is_empty-append (c ∷ s) t h = refl

parse_label-chunking_label :
    (c fallback : ChunkingSpec)
    → is_empty c.strategy ≡ false
    → Lacks b'.' c.strategy
    → parse_label (chunking_label c) fallback ≡ c
unfolding parse_label chunking_label
parse_label-chunking_label c fallback h l =
    rw
      (
        split3-append b'.' c.strategy (sprintf_d c.max_tokens) (sprintf_d c.overlap) l
            (sprintf_d-Lacks c.max_tokens),
        parse_label,
      )
      (rw (h, sscanf_d-sprintf_d c.max_tokens, sscanf_d-sprintf_d c.overlap))

-- A Job labelled with a chunking whose strategy is not empty and has no dot gives that very
-- chunking back to the operator that finalizes it, not the fallback.
pub job_effective_chunking-chunking_label :
    (j : Job) (c fallback : ChunkingSpec)
    → is_empty c.strategy ≡ false
    → Lacks b'.' c.strategy
    → j.labels.chunking ≡ chunking_label c
    → job_effective_chunking j fallback ≡ c
unfolding job_effective_chunking
job_effective_chunking-chunking_label j c fallback h l e =
    rw (e, label_filled) (parse_label-chunking_label c fallback h l)
  where
    label_filled : is_empty (chunking_label c) ≡ false
    label_filled = unfold chunking_label in is_empty-append c.strategy _ h
