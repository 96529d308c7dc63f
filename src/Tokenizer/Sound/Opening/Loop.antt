-- ===== src/Tokenizer/Sound/Opening/Loop.antt =====
-- The first turn of the loop of `tokenize_line` adds the first token of a line without a mark.
use mathlib.Core.Option
use c_pug.TokenList.{token_list_add, Reallocs}
use c_pug.Common.{
  ℕ, zero, suc, ◌+◌, ◌<◌, ◌≡◌, refl, ap, ◌∙◌, Bool, true, false, Option, none, some, [], ◌∷◌, Bytes,
  arith, ◌==◌, length, if◌then◌else◌, ltb,
}
use c_pug.Glib.{Glib, Documented}
use c_pug.TokenList.Extends.{IsLimited, IsBounded, Extends, token_list_add-IsBounded}
use c_pug.Tokenizer.Chars.{isalpha, is_name_byte, is_tag_byte}
use c_pug.Tokenizer.Line.Marks.{create_token, add_token}
use c_pug.Tokenizer.Line.Text.{
  LineState, Step, continues, add_buffer, scan_id, scan_class, scan_attributes, scan_tag, scan_step,
  scan_loop,
}
use c_pug.Tokenizer.Scan.{collect_parens}
use c_pug.Tokenizer.Sound.Loops.{scan_loop-Extends}
use c_pug.Tokenizer.Sound.Progress.{
  length-scan_id-le, length-scan_class-le, length-scan_attributes-le, length-scan_tag-le,
}
use c_pug.Tokenizer.Sound.Values.{IsFrom, buffer-truncate}
use c_pug.Tokens.{
  TokenType, token_id, token_class, token_dot, token_attribute, token_tag, Token, TokenList,
}
use c_pug.Tokenizer.Sound.Opening.{token_of, scan_opening}

pub if_cases₂ :
    {A B : Type 0} (R : A → B → Type 0) (b : Bool) {x y : A} {u v : B}
    → (b ≡ true → R x u)
    → (b ≡ false → R y v)
    → R (if b then x else y) (if b then u else v)
if_cases₂ R true f h = f refl
if_cases₂ R false f h = h refl

module _ (g : Glib) (mem : Reallocs) (indent n : ℕ) (doc : Documented g)
    (limited : IsLimited mem) where
  abbrev pub added : TokenList → Token → TokenList
  added list t = token_list_add (mem list.count t) list (some t)

  -- The run adds the token, and then extends the list.
  abbrev pub Starts : TokenList → Option Token → Option TokenList → Type 0
  Starts list none o = Unit
  Starts list (some t) o =
      (list' : TokenList) × (o ≡ some list') × Extends (IsFrom indent n) (added list t) list'

  -- A turn of the loop adds the token and goes on with less than `size` of the line.
  abbrev pub Steps : TokenList → ℕ → Option Token → Option Step → Type 0
  Steps list size none o = Unit
  Steps list size (some t) o =
      (s : LineState) × (o ≡ some (continues s))
      × (s.tokens ≡ added list t)
      × (length s.rest < size)

  pub add_token-added :
      (list : TokenList) (type : Bytes → TokenType) (v w : Bytes) (column : ℕ)
      → v ≡ w
      → add_token mem list (create_token (type v) (some v) indent n column)
        ≡ added list (token_of indent n (type w) w column)
  unfolding add_token create_token
  add_token-added list type v w column e =
      ap (λ x. added list (token_of indent n (type x) x column)) e

  pub scan_step-Steps :
      (list : TokenList) (column c : ℕ) (r : Bytes)
      → Steps list (suc (length r)) (scan_opening g indent n column c r) (
          scan_step g mem indent n
            (record { tokens = list; buffer = []; rest = c ∷ r; pos = column; column = column })
            c
            r)
  unfolding scan_step scan_id scan_class scan_attributes scan_tag add_buffer
  scan_step-Steps list column c r =
      let s : LineState = record {
        tokens = list;
        buffer = [];
        rest = c ∷ r;
        pos = column;
        column = column;
      } in
      let R = Steps list (suc (length r)) in
      if_cases₂ R (c == b'#')
        (λ _. (
          scan_id g mem indent n s r,
          refl,
          add_token-added list (λ _. token_id) _ _ (column + 1)
              (buffer-truncate g is_name_byte [] r (column + 1) doc),
          omega (arith, length-scan_id-le g mem indent n s r),
        ))
        λ _.
          if_cases₂ R (c == b'.')
            (λ _. (
              scan_class g mem indent n s r,
              refl,
              add_token-added list (λ v. if ltb 0 (length v) then token_class else token_dot) _ _
                  (column + 1) (buffer-truncate g is_name_byte [] r (column + 1) doc),
              omega (arith, length-scan_class-le g mem indent n s r),
            ))
            λ _.
              if_cases₂ R (c == b'(')
                (λ _. (
                  scan_attributes g mem indent n s r,
                  refl,
                  add_token-added list (λ _. token_attribute) _ _ column
                      (ap (λ b. (collect_parens g 1 b r (column + 1)).buffer)
                        (doc.truncate_zero [])),
                  omega (arith, length-scan_attributes-le g mem indent n s r),
                ))
                λ _.
                  if_cases₂ R (isalpha c)
                    (λ letter. (
                      scan_tag g mem indent n s,
                      refl,
                      add_token-added list (λ _. token_tag) _ _ column
                          (buffer-truncate g is_tag_byte [] (c ∷ r) column doc),
                      omega (arith, length-scan_tag-le g mem indent n s c r refl letter),
                    ))
                    λ _. tt

  scan_loop-continues :
      (fuel : ℕ) (s s' : LineState) (c : ℕ) (r : Bytes)
      → s.rest ≡ c ∷ r
      → scan_step g mem indent n s c r ≡ some (continues s')
      → scan_loop g mem indent n (suc fuel) s ≡ scan_loop g mem indent n fuel s'
  unfolding scan_loop
  scan_loop-continues fuel s s' c r e q = ground arith

  pub first_turn :
      (fuel : ℕ) (list : TokenList) (column c : ℕ) (r : Bytes) (o : Option Token)
      → IsBounded list
      → suc (length r) < fuel
      → Steps list (suc (length r)) o (
          scan_step g mem indent n
            (record { tokens = list; buffer = []; rest = c ∷ r; pos = column; column = column })
            c
            r)
      → Starts list o (
          Option.map
            (λ s. s.tokens)
            (scan_loop g mem indent n fuel
              (record { tokens = list; buffer = []; rest = c ∷ r; pos = column; column = column })))
  first_turn fuel list column c r none b lt step = tt
  first_turn zero list column c r (some t) b lt step = absurd (omega arith)
  first_turn (suc fuel) list column c r (some t) b lt (s, e, tokens, shorter) =
      let bounded : IsBounded s.tokens = rw tokens (token_list_add-IsBounded list t limited b) in
      let (s', runs, x) =
        scan_loop-Extends g mem indent n doc limited fuel s (omega (arith, shorter)) bounded in
      (
        s'.tokens,
        ap (Option.map (λ s. s.tokens)) (scan_loop-continues fuel _ s c r refl e ∙ runs),
        rw (← tokens) x,
      )
