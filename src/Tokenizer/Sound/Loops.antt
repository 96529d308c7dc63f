-- ===== src/Tokenizer/Sound/Loops.antt =====
-- The loops of `tokenize_line` end within their fuel, and all they add is of the line.
use c_pug.TokenList.{Reallocs}
use mathlib.Core.Option
use c_pug.Common.{
  ℕ, zero, suc, ◌+◌, ◌<◌, ◌≡◌, refl, ap, true, ◌||◌, Option, some, [], ◌∷◌, Bytes, arith, ◌==◌,
  length, Bool-cases, inl, inr, List-cases,
}
use c_pug.Glib.{Glib, Documented}
use c_pug.TokenList.Extends.{IsLimited, IsBounded, Extends, Extends-refl, Extends-trans}
use c_pug.Tokenizer.Chars.{isalpha}
use c_pug.Tokenizer.Indent.{skip_whitespace}
use c_pug.Tokenizer.Line.Text.{
  LineState, Step, continues, breaks, scan_id, scan_class, scan_attributes, scan_tag, text_step,
  text_loop, scan_text, scan_space, scan_step, scan_loop,
}
use c_pug.Tokenizer.Sound.Progress.{
  length-skip_whitespace-lt, length-scan_id-le, length-scan_class-le, length-scan_attributes-le,
  length-scan_tag-le, length-text_step-le,
}
use c_pug.Tokenizer.Sound.Text.{
  scan_id-Extends, scan_class-Extends, scan_attributes-Extends, scan_tag-Extends, text_step-Extends,
}
use c_pug.Tokenizer.Sound.Values.{IsFrom}

module _ (g : Glib) (mem : Reallocs) (indent n : ℕ) (doc : Documented g)
    (limited : IsLimited mem) where
  text_loop-Extends :
      (fuel : ℕ) (s : LineState)
      → length s.rest < fuel
      → IsBounded s.tokens
      → (s' : LineState) × (text_loop g mem indent n fuel s ≡ some s')
        × Extends (IsFrom indent n) s.tokens s'.tokens
  unfolding text_loop
  text_loop-Extends zero s h b = absurd (omega arith)
  text_loop-Extends (suc fuel) s h b = elim (List-cases s.rest) [
    | inl e ↦ (s, ground arith, Extends-refl b)
    | inr (c, r, e) ↦
        let turn = text_step-Extends g mem indent n doc limited s b in
        let (s', runs, more) =
          text_loop-Extends fuel (text_step g mem indent n s)
            (omega (arith, ap length e, length-text_step-le g mem indent n s c r e)) turn.bounded in
        (s', ground arith, Extends-trans turn more)
  ]

  -- What a turn of the outer loop leaves: a list that it extended and, if the loop goes on, less
  -- of the line than `size`.
  abbrev After : LineState → ℕ → Step → Type 0
  After s size (continues s') =
      Extends (IsFrom indent n) s.tokens s'.tokens × (length s'.rest < size)
  After s size (breaks s') = Extends (IsFrom indent n) s.tokens s'.tokens × Unit {0}

  -- The turn ends, in a step that satisfies `After`.
  abbrev Turns : LineState → ℕ → Option Step → Type 0
  Turns s size o = (st : Step) × (o ≡ some st) × After s size st

  text-Turns :
      (s : LineState) (size : ℕ)
      → IsBounded s.tokens
      → Turns s size (
          Option.map breaks
            (text_loop g mem indent n (length s.rest + 1) (record s { column = s.pos })))
  text-Turns s size b =
      let (s', runs, e) =
        text_loop-Extends (length s.rest + 1) (record s { column = s.pos }) (omega arith) b in
      (breaks s', rw runs, (e, tt))

  scan_text-Turns :
      (s : LineState) (x : Bytes) (size : ℕ)
      → length s.rest < size
      → IsBounded s.tokens
      → Turns s size (scan_text g mem indent n s x)
  unfolding scan_text
  scan_text-Turns s [] size h b = (continues s, refl, (Extends-refl b, h))
  scan_text-Turns s (c ∷ x) size h b = elim (Bool-cases (c == b'#' || c == b'.')) [
    | inl mark ↦ (continues s, rw mark, (Extends-refl b, h))
    | inr text ↦ rw text (text-Turns s size b)
  ]

  scan_space-Turns :
      (s : LineState) (c : ℕ) (r : Bytes)
      → s.rest ≡ c ∷ r
      → (c == b' ') ≡ true
      → IsBounded s.tokens
      → Turns s (length s.rest) (scan_space g mem indent n s)
  unfolding scan_space
  scan_space-Turns s c r e h b =
      let shorter : length (skip_whitespace s.rest s.pos).0 < length s.rest =
        rw e (omega (arith, length-skip_whitespace-lt c r s.pos h)) in
      scan_text-Turns
        (record s {
          rest = (skip_whitespace s.rest s.pos).0;
          pos = (skip_whitespace s.rest s.pos).1;
        })
        (skip_whitespace s.rest s.pos).0 (length s.rest) shorter b

  scan_step-Turns :
      (s : LineState) (c : ℕ) (r : Bytes)
      → s.rest ≡ c ∷ r
      → IsBounded s.tokens
      → Turns s (length s.rest) (scan_step g mem indent n s c r)
  unfolding scan_step
  scan_step-Turns s c r e b = elim (Bool-cases (c == b'#')) [
    | inl t ↦ (
      continues (scan_id g mem indent n s r),
      rw t,
      (
        scan_id-Extends g mem indent n doc limited s r b,
        omega (arith, ap length e, length-scan_id-le g mem indent n s r),
      ),
    )
    | inr f₁ ↦ rw f₁ (elim (Bool-cases (c == b'.')) [
      | inl t ↦ (
        continues (scan_class g mem indent n s r),
        rw t,
        (
          scan_class-Extends g mem indent n doc limited s r b,
          omega (arith, ap length e, length-scan_class-le g mem indent n s r),
        ),
      )
      | inr f₂ ↦ rw f₂ (elim (Bool-cases (c == b'(')) [
        | inl t ↦ (
          continues (scan_attributes g mem indent n s r),
          rw t,
          (
            scan_attributes-Extends g mem indent n doc limited s r b,
            omega (arith, ap length e, length-scan_attributes-le g mem indent n s r),
          ),
        )
        | inr f₃ ↦ rw f₃ (elim (Bool-cases (isalpha c)) [
          | inl t ↦ (
            continues (scan_tag g mem indent n s),
            rw t,
            (
              scan_tag-Extends g mem indent n doc limited s c r e t b,
              omega (arith, ap length e, length-scan_tag-le g mem indent n s c r e t),
            ),
          )
          | inr f₄ ↦ rw f₄ (elim (Bool-cases (c == b' ')) [
            | inl t ↦ rw t (scan_space-Turns s c r e t b)
            | inr f₅ ↦ (
              continues (record s { rest = r; pos = s.pos + 1 }),
              rw f₅,
              (Extends-refl b, omega (arith, ap length e)),
            )
          ])
        ])
      ])
    ])
  ]

  -- The loop ends, and has extended the list.
  abbrev pub Ends : LineState → Option LineState → Type 0
  Ends s o = (s' : LineState) × (o ≡ some s') × Extends (IsFrom indent n) s.tokens s'.tokens

  one_turn :
      (fuel : ℕ) (s : LineState) (c : ℕ) (r : Bytes)
      → s.rest ≡ c ∷ r
      → length s.rest < suc fuel
      → ((t : LineState)
          → length t.rest < fuel
          → IsBounded t.tokens
          → Ends t (scan_loop g mem indent n fuel t))
      → (st : Step) → scan_step g mem indent n s c r ≡ some st
      → After s (length s.rest) st
      → Ends s (scan_loop g mem indent n (suc fuel) s)
  unfolding scan_loop
  one_turn fuel s c r e h later (continues t) q (x, shorter) =
      let (s', runs, more) = later t (omega arith) x.bounded in
      (s', ground arith, Extends-trans x more)
  one_turn fuel s c r e h later (breaks t) q (x, _) = (t, ground arith, x)

  pub scan_loop-Extends :
      (fuel : ℕ) (s : LineState)
      → length s.rest < fuel
      → IsBounded s.tokens
      → Ends s (scan_loop g mem indent n fuel s)
  unfolding scan_loop
  scan_loop-Extends zero s h b = absurd (omega arith)
  scan_loop-Extends (suc fuel) s h b = elim (List-cases s.rest) [
    | inl e ↦ (s, ground arith, Extends-refl b)
    | inr (c, r, e) ↦
        let (st, q, after) = scan_step-Turns s c r e b in
        one_turn fuel s c r e h (scan_loop-Extends fuel) st q after
  ]
