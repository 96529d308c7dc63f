-- ===== src/Tokenizer/Scan/Pieces.antt =====
-- What the buffer loops read: the longest prefix whose bytes pass the test, and the rest.
use c_pug.Common.{
  ℕ, zero, suc, ◌+◌, ◌≤◌, ◌≡◌, refl, sym, ◌∙◌, Bool, true, ◌&&◌, [], ◌∷◌, ◌++◌, Bytes, arith,
  length, if◌then◌else◌, ◌==◌, append-nil, append_assoc, Bool-cases, inl, inr,
}
use c_pug.Glib.{Glib, Documented}
use c_pug.Tokenizer.Scan.{collect_while, next_level, collect_parens}

abbrev pub all : (ℕ → Bool) → Bytes → Bool
all test [] = true
all test (c ∷ s) = test c && all test s

pub take_while : (ℕ → Bool) → Bytes → Bytes
take_while test [] = []
take_while test (c ∷ s) = if test c then c ∷ take_while test s else []

unfoldable pub drop_while : (ℕ → Bool) → Bytes → Bytes
drop_while test [] = []
drop_while test (c ∷ s) = if test c then drop_while test s else c ∷ s

pub all-take_while : (test : ℕ → Bool) (s : Bytes) → all test (take_while test s) ≡ true
unfolding take_while
all-take_while test [] = refl
all-take_while test (c ∷ s) = ground (arith, all-take_while test s)

pub take_while-append-drop_while :
    (test : ℕ → Bool) (s : Bytes) → take_while test s ++ drop_while test s ≡ s
unfolding take_while drop_while
take_while-append-drop_while test [] = refl
take_while-append-drop_while test (c ∷ s) = ground (arith, take_while-append-drop_while test s)

pub length-drop_while-le : (test : ℕ → Bool) (s : Bytes) → length (drop_while test s) ≤ length s
unfolding drop_while
length-drop_while-le test [] = omega arith
length-drop_while-le test (c ∷ s) = ground (arith, length-drop_while-le test s)

pub length-drop_while-lt :
    (test : ℕ → Bool) (c : ℕ) (s : Bytes)
    → test c ≡ true
    → length (drop_while test (c ∷ s)) ≤ length s
unfolding drop_while
length-drop_while-lt test c s h = rw h (length-drop_while-le test s)

pub take_while-cons :
    (test : ℕ → Bool) (c : ℕ) (s : Bytes)
    → test c ≡ true
    → take_while test (c ∷ s) ≡ c ∷ take_while test s
unfolding take_while
take_while-cons test c s h = rw h

pub take_while-true : (s : Bytes) → take_while (λ _. true) s ≡ s
unfolding take_while
take_while-true [] = refl
take_while-true (c ∷ s) = rw (take_while-true s)

module _ (g : Glib) where
  pub rest-collect_while :
      (test : ℕ → Bool) (b s : Bytes) (p : ℕ)
      → (collect_while g test b s p).rest ≡ drop_while test s
  unfolding collect_while drop_while
  rest-collect_while test b [] p = refl
  rest-collect_while test b (c ∷ s) p =
      ground (arith, rest-collect_while test (g.g_string_append_c b c) s (p + 1))

  pub buffer-collect_while :
      Documented g
      → (test : ℕ → Bool) (b s : Bytes) (p : ℕ)
      → (collect_while g test b s p).buffer ≡ b ++ take_while test s
  unfolding collect_while take_while
  buffer-collect_while doc test b [] p = sym (append-nil b)
  buffer-collect_while doc test b (c ∷ s) p = elim (Bool-cases (test c)) [
    | inl hit ↦
        rw (hit, doc.append_c b c)
          (buffer-collect_while doc test (b ++ c ∷ []) s (p + 1)
            ∙ append_assoc b (c ∷ []) (take_while test s))
    | inr miss ↦ rw miss (sym (append-nil b))
  ]

  pub pos-collect_while :
      (test : ℕ → Bool) (b s : Bytes) (p : ℕ)
      → (collect_while g test b s p).pos + length (drop_while test s) ≡ p + length s
  unfolding collect_while drop_while
  pos-collect_while test b [] p = refl
  pos-collect_while test b (c ∷ s) p =
      ground (arith, pos-collect_while test (g.g_string_append_c b c) s (p + 1))

  pub length-collect_parens-le :
      (level : ℕ) (b s : Bytes) (p : ℕ) → length (collect_parens g level b s p).rest ≤ length s
  unfolding collect_parens
  length-collect_parens-le zero b [] p = omega arith
  length-collect_parens-le zero b (c ∷ s) p = omega arith
  length-collect_parens-le (suc level) b [] p = omega arith
  length-collect_parens-le (suc level) b (c ∷ s) p =
      let level' = next_level g c (suc level) in
      let b' = if level' == 0 then b else g.g_string_append_c b c in
      omega (arith, length-collect_parens-le level' b' s (p + 1))
