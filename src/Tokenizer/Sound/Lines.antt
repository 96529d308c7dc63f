-- ===== src/Tokenizer/Sound/Lines.antt =====
-- `tokenize_line` and `tokenize_file` return, and what they add to the list.
use c_pug.TokenList.{Reallocs}
use mathlib.Core.Option
use c_pug.Common.{
  ℕ, ◌+◌, ◌≡◌, refl, Option, some, [], ◌∷◌, Bytes, arith, ◌==◌, length, codes, if_cases, drop,
}
use c_pug.Glib.{Glib, Documented}
use c_pug.TokenList.Extends.{IsLimited, IsBounded, Extends, Extends-refl}
use c_pug.Tokenizer.Line.Marks.{doctype_line, include_line, extends_line, mixin_line, call_line}
use c_pug.Tokenizer.Line.Start.{at_slashes, start_line, nonblank_line}
use c_pug.Tokenizer.Line.Text.{scan_loop}
use c_pug.Tokenizer.Sound.Loops.{scan_loop-Extends}
use c_pug.Tokenizer.Sound.Marks.{
  directive_line-Extends, comment_line-Extends, pipe_line-Extends, code_line-Extends,
}
use c_pug.Tokenizer.Sound.Values.{value_ok, IsFrom}
use c_pug.Tokens.{TokenList, token_doctype, token_include, token_extends, token_mixin, token_call}

-- The run returns a list that extends the given one by tokens of line `n`.
abbrev pub Returns : ℕ → ℕ → TokenList → Option TokenList → Type 0
Returns indent n list o =
    (list' : TokenList) × (o ≡ some list') × Extends (IsFrom indent n) list list'

module _ (g : Glib) (mem : Reallocs) (indent n : ℕ) (doc : Documented g)
    (limited : IsLimited mem) where
  doctype_line-Extends :
      (list : TokenList) (rest : Bytes) (column : ℕ)
      → IsBounded list
      → Extends (IsFrom indent n) list (doctype_line g mem indent n list rest column)
  unfolding doctype_line value_ok
  doctype_line-Extends list rest column =
      directive_line-Extends g mem indent n doc limited token_doctype 7 list rest column
        (record { form = λ v. refl })

  include_line-Extends :
      (list : TokenList) (rest : Bytes) (column : ℕ)
      → IsBounded list
      → Extends (IsFrom indent n) list (include_line g mem indent n list rest column)
  unfolding include_line value_ok
  include_line-Extends list rest column =
      directive_line-Extends g mem indent n doc limited token_include 7 list rest column
        (record { form = λ v. refl })

  extends_line-Extends :
      (list : TokenList) (rest : Bytes) (column : ℕ)
      → IsBounded list
      → Extends (IsFrom indent n) list (extends_line g mem indent n list rest column)
  unfolding extends_line value_ok
  extends_line-Extends list rest column =
      directive_line-Extends g mem indent n doc limited token_extends 7 list rest column
        (record { form = λ v. refl })

  mixin_line-Extends :
      (list : TokenList) (rest : Bytes) (column : ℕ)
      → IsBounded list
      → Extends (IsFrom indent n) list (mixin_line g mem indent n list rest column)
  unfolding mixin_line value_ok
  mixin_line-Extends list rest column =
      directive_line-Extends g mem indent n doc limited token_mixin 5 list rest column
        (record { form = λ v. refl })

  call_line-Extends :
      (list : TokenList) (rest : Bytes) (column : ℕ)
      → IsBounded list
      → Extends (IsFrom indent n) list (call_line g mem indent n list rest column)
  unfolding call_line value_ok
  call_line-Extends list rest column =
      directive_line-Extends g mem indent n doc limited token_call 1 list rest column
        (record { form = λ v. refl })

  scanned-Returns :
      (list : TokenList) (rest : Bytes) (column : ℕ)
      → IsBounded list
      → Returns indent n list (
          Option.map
            (λ s. s.tokens)
            (scan_loop g mem indent n
              (length rest + 1)
              (record { tokens = list; buffer = []; rest = rest; pos = column; column = column })))
  scanned-Returns list rest column b =
      let (s, runs, e) =
        scan_loop-Extends g mem indent n doc limited (length rest + 1)
          (record { tokens = list; buffer = []; rest = rest; pos = column; column = column })
          (omega arith) b in
      (s.tokens, rw runs, e)

  start_line-Returns :
      (list : TokenList) (column c : ℕ) (r : Bytes)
      → IsBounded list
      → Returns indent n list (start_line g mem indent n list column c r)
  unfolding start_line
  start_line-Returns list column c r b =
      let rest : Bytes = c ∷ r in
      let R = Returns indent n list in
      if_cases R (g.g_str_has_prefix rest (codes "doctype")) _ _
        (λ _. (_, refl, doctype_line-Extends list rest column b))
        λ _.
          if_cases R (g.g_str_has_prefix rest (codes "include")) _ _
            (λ _. (_, refl, include_line-Extends list rest column b))
            λ _.
              if_cases R (g.g_str_has_prefix rest (codes "extends")) _ _
                (λ _. (_, refl, extends_line-Extends list rest column b))
                λ _.
                  if_cases R (g.g_str_has_prefix rest (codes "mixin")) _ _
                    (λ _. (_, refl, mixin_line-Extends list rest column b))
                    λ _.
                      if_cases R (c == b'+') _ _
                        (λ _. (_, refl, call_line-Extends list rest column b))
                        λ _.
                          if_cases R (at_slashes c r) _ _
                            (λ _. (
                              _,
                              refl,
                              comment_line-Extends g mem indent n doc limited list (drop 1 r) column
                                  b,
                            ))
                            λ _.
                              if_cases R (c == b'|') _ _
                                (λ _. (
                                  _,
                                  refl,
                                  pipe_line-Extends g mem indent n doc limited list rest column b,
                                ))
                                λ _.
                                  if_cases R (c == b'-') _ _
                                    (λ _. (
                                      _,
                                      refl,
                                      code_line-Extends g mem indent n doc limited list rest column
                                          b,
                                    ))
                                    λ _. scanned-Returns list rest column b

  pub nonblank_line-Returns :
      (list : TokenList) (rest : Bytes) (column : ℕ)
      → IsBounded list
      → Returns indent n list (nonblank_line g mem indent n list rest column)
  unfolding nonblank_line
  nonblank_line-Returns list [] column b = (list, refl, Extends-refl b)
  nonblank_line-Returns list (c ∷ r) column b = start_line-Returns list column c r b
