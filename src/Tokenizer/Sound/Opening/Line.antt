-- ===== src/Tokenizer/Sound/Opening/Line.antt =====
-- `tokenize_line` adds the first token of a line before any other.
use c_pug.TokenList.{Reallocs}
use c_pug.Common.{
  ℕ, ◌+◌, ◌≡◌, refl, ap, ◌∙◌, sym, true, Option, none, some, List, [], ◌∷◌, ◌++◌, Bytes, arith,
  ◌==◌, length, codes, drop, if◌then◌else◌, inl, inr, Bool-cases, append_assoc,
}
use c_pug.Glib.{Glib, Documented}
use c_pug.TokenList.Extends.{IsLimited, IsBounded, Extends, Extends-refl, token_list_add-IsBounded}
use c_pug.TokenList.Growth.{stores, tokens-token_list_add}
use c_pug.Tokenizer.Chars.{is_blank}
use c_pug.Tokenizer.Indent.Levels.{level_of, count_indent_level-level_of}
use c_pug.Tokenizer.Indent.{skip_whitespace}
use c_pug.Tokenizer.Line.Marks.{
  create_token, add_token, directive_line, doctype_line, include_line, extends_line, mixin_line,
  call_line, comment_line, pipe_line, code_line,
}
use c_pug.Tokenizer.Line.Start.{at_slashes, start_line, nonblank_line, tokenize_line}
use c_pug.Tokenizer.Scan.Pieces.{drop_while, take_while-true, buffer-collect_while}
use c_pug.Tokenizer.Sound.Values.{IsFrom}
use c_pug.Tokens.{
  TokenType, token_doctype, token_include, token_extends, token_mixin, token_call,
  token_block_comment, token_comment, token_pipe, token_code, Token, TokenList,
}
use c_pug.Tokenizer.Sound.Opening.{
  token_of, comment_token, scan_opening, text_opening, opening, Opens,
}
use c_pug.Tokenizer.Sound.Opening.Loop.{
  if_cases₂, added, Starts, add_token-added, first_turn, scan_step-Steps,
}

append-cancel : (a b c : List Token) → a ++ b ≡ a ++ c → b ≡ c
append-cancel [] b c e = e
append-cancel (t ∷ a) b c e = let tails : a ++ b ≡ a ++ c = cc in append-cancel a b c tails

skip-drop_while : (s : Bytes) (p : ℕ) → (skip_whitespace s p).0 ≡ drop_while is_blank s
unfolding skip_whitespace drop_while
skip-drop_while [] p = refl
skip-drop_while (c ∷ s) p = ground (arith, skip-drop_while s (p + 1))

module _ (g : Glib) (mem : Reallocs) (indent n : ℕ) (doc : Documented g)
    (limited : IsLimited mem) where
  marked :
      (list : TokenList) (type : TokenType) (v w : Bytes) (column : ℕ)
      → IsBounded list
      → v ≡ w
      → Starts g mem indent n doc limited list
          (some (token_of indent n type w column))
          (some (add_token mem list (create_token type (some v) indent n column)))
  marked list type v w column b e = (
    added g mem indent n doc limited list (token_of indent n type w column),
    ap some (add_token-added g mem indent n doc limited list (λ _. type) v w column e),
    Extends-refl (token_list_add-IsBounded list _ limited b),
  )

  directive-Starts :
      (list : TokenList) (type : TokenType) (k : ℕ) (rest : Bytes) (column : ℕ)
      → IsBounded list
      → Starts g mem indent n doc limited list
          (some (token_of indent n type (drop_while is_blank (drop k rest)) column))
          (some (directive_line g mem indent n type k list rest column))
  unfolding directive_line
  directive-Starts list type k rest column b = marked list type _ _ column b (
      buffer-collect_while g doc (λ _. true) [] _ _
      ∙ take_while-true _
      ∙ skip-drop_while (drop k rest) (column + k))

  comment-Starts :
      (list : TokenList) (rest : Bytes) (column : ℕ)
      → IsBounded list
      → Starts g mem indent n doc limited list
          (some (comment_token indent n rest column))
          (some (comment_line g mem indent n list rest column))
  unfolding comment_line
  comment-Starts list [] column b = marked list token_comment [] [] column b refl
  comment-Starts list (c ∷ s) column b = elim (Bool-cases (c == b'-')) [
    | inl block ↦ rw block (marked list token_block_comment s s column b refl)
    | inr other ↦ rw other (marked list token_comment (c ∷ s) (c ∷ s) column b refl)
  ]

  start_line-Starts :
      (list : TokenList) (column c : ℕ) (r : Bytes)
      → IsBounded list
      → Starts g mem indent n doc limited list
          (text_opening g indent n (c ∷ r) column)
          (start_line g mem indent n list column c r)
  unfolding start_line doctype_line include_line extends_line mixin_line call_line pipe_line
      code_line
  start_line-Starts list column c r b =
      let rest : Bytes = c ∷ r in
      let R = Starts g mem indent n doc limited list in
      if_cases₂ R (g.g_str_has_prefix rest (codes "doctype"))
        (λ _. directive-Starts list token_doctype 7 rest column b)
        λ _.
          if_cases₂ R (g.g_str_has_prefix rest (codes "include"))
            (λ _. directive-Starts list token_include 7 rest column b)
            λ _.
              if_cases₂ R (g.g_str_has_prefix rest (codes "extends"))
                (λ _. directive-Starts list token_extends 7 rest column b)
                λ _.
                  if_cases₂ R (g.g_str_has_prefix rest (codes "mixin"))
                    (λ _. directive-Starts list token_mixin 5 rest column b)
                    λ _.
                      if_cases₂ R (c == b'+')
                        (λ _. directive-Starts list token_call 1 rest column b)
                        λ _.
                          if_cases₂ R (at_slashes c r)
                            (λ _. comment-Starts list (drop 1 r) column b)
                            λ _.
                              if_cases₂ R (c == b'|')
                                (λ _.
                                  marked list token_pipe _ _ column b
                                    (skip-drop_while (drop 1 rest) (column + 1)))
                                λ _.
                                  if_cases₂ R (c == b'-')
                                    (λ _.
                                      marked list token_code _ _ column b
                                        (skip-drop_while (drop 1 rest) (column + 1)))
                                    λ _.
                                      first_turn g mem indent n doc limited (length (c ∷ r) + 1)
                                        list column c r (scan_opening g indent n column c r) b
                                        (omega arith)
                                        (scan_step-Steps g mem indent n doc limited list column c r)

  nonblank_line-Starts :
      (list : TokenList) (rest : Bytes) (column : ℕ)
      → IsBounded list
      → Starts g mem indent n doc limited list
          (text_opening g indent n rest column)
          (nonblank_line g mem indent n list rest column)
  unfolding nonblank_line
  nonblank_line-Starts list [] column b = tt
  nonblank_line-Starts list (c ∷ r) column b = start_line-Starts list column c r b

  -- What the run adds to the list starts with the token.
  Starts-Opens :
      (list list' : TokenList) (o : Option Token) (run : Option TokenList)
      → IsBounded list
      → Starts g mem indent n doc limited list o run
      → run ≡ some list'
      → (x : Extends (IsFrom indent n) list list') → Opens mem list.count o x.new
  Starts-Opens list list' none run b s e x = tt
  Starts-Opens list list' (some t) run b (end, q, y) e x =
      let same : end ≡ list' = cc in
      let tokens : list.tokens ++ x.new
          ≡ (added g mem indent n doc limited list t).tokens ++ y.new =
        sym x.appended ∙ ap (λ (l : TokenList). l.tokens) (sym same) ∙ y.appended in
      let first = tokens-token_list_add (mem list.count t) list t b.valid in
      elim (Bool-cases (mem list.count t)) [
        | inr refused ↦ inr refused
        | inl granted ↦
            let stored : (added g mem indent n doc limited list t).tokens ≡ list.tokens ++ t ∷ [] =
              first
              ∙ ap (λ ok. if stores ok list then list.tokens ++ t ∷ [] else list.tokens) granted in
            inl (
              y.new,
              append-cancel list.tokens x.new (t ∷ y.new) (
                  tokens
                  ∙ ap (λ (l : List Token). l ++ y.new) stored
                  ∙ append_assoc list.tokens (t ∷ []) y.new),
            )
      ]

-- What `tokenize_line` adds starts with the first token of the line.
pub tokenize_line-Opens :
    (g : Glib) (mem : Reallocs) (list list' : TokenList) (line : Bytes) (n : ℕ)
    → Documented g
    → IsLimited mem
    → IsBounded list
    → tokenize_line g mem list line n ≡ some list'
    → (x : Extends (IsFrom (level_of line) n) list list')
    → Opens mem list.count (opening g line n) x.new
unfolding tokenize_line
tokenize_line-Opens g mem list list' line n doc limited b e x =
    let runs : nonblank_line g mem (level_of line) n list (skip_whitespace line 0).0
          (skip_whitespace line 0).1
        ≡ some list' =
      (rw (count_indent_level-level_of line) at e) in
    Starts-Opens g mem (level_of line) n doc limited list list' (opening g line n) _ b
      (nonblank_line-Starts g mem (level_of line) n doc limited list (skip_whitespace line 0).0
        (skip_whitespace line 0).1 b)
      runs x
