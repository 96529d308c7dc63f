-- ===== src/Tokenizer/Sound/Marks.antt =====
-- The lines that a mark decides add one token, or none if the list is full.
use c_pug.TokenList.{Reallocs}
use c_pug.Common.{
  ℕ, ◌+◌, ◌≡◌, refl, false, not, some, [], ◌∷◌, Bytes, arith, drop, Bool-cases, inl, inr, ◌==◌,
}
use c_pug.Glib.{Glib, Documented}
use c_pug.TokenList.Extends.{IsLimited, IsBounded, Extends}
use c_pug.Tokenizer.Chars.{is_blank}
use c_pug.Tokenizer.Indent.{skip_whitespace}
use c_pug.Tokenizer.Line.Marks.{directive_line, comment_line, pipe_line, code_line}
use c_pug.Tokenizer.Scan.Pieces.{take_while-true, buffer-collect_while}
use c_pug.Tokenizer.Sound.Values.{starts, value_ok, IsFrom, create_token-Extends}
use c_pug.Tokens.{TokenType, TokenList, token_comment, token_block_comment, token_pipe, token_code}

-- Nothing blank is left in front.
pub starts-skip_whitespace : (s : Bytes) (p : ℕ) → starts is_blank (skip_whitespace s p).0 ≡ false
unfolding skip_whitespace
starts-skip_whitespace [] p = refl
starts-skip_whitespace (c ∷ s) p = ground (arith, starts-skip_whitespace s (p + 1))

-- The types whose value is the rest of the line behind the mark and the blanks.
pub record IsDirective (type : TokenType) : Type 0 where
  pub form : (v : Bytes) → value_ok type (some v) ≡ not (starts is_blank v)

module _ (g : Glib) (mem : Reallocs) (indent n : ℕ) (doc : Documented g)
    (limited : IsLimited mem) where
  pub directive_line-Extends :
      (type : TokenType) (k : ℕ) (list : TokenList) (rest : Bytes) (column : ℕ)
      → IsDirective type
      → IsBounded list
      → Extends (IsFrom indent n) list (directive_line g mem indent n type k list rest column)
  unfolding directive_line
  directive_line-Extends type k list rest column d b =
      create_token-Extends list type _ indent n column limited b
        (rw (buffer-collect_while g doc, take_while-true, d.form, starts-skip_whitespace))

  pub comment_line-Extends :
      (list : TokenList) (rest : Bytes) (column : ℕ)
      → IsBounded list
      → Extends (IsFrom indent n) list (comment_line g mem indent n list rest column)
  unfolding comment_line value_ok
  comment_line-Extends list [] column b =
      create_token-Extends list token_comment (some []) indent n column limited b refl
  comment_line-Extends list (c ∷ s) column b = elim (Bool-cases (c == b'-')) [
    | inl hit ↦
        rw hit
          (create_token-Extends list token_block_comment (some s) indent n column limited b refl)
    | inr miss ↦
        rw miss (
          create_token-Extends list token_comment (some (c ∷ s)) indent n column limited b
            (rw miss))
  ]

  pub pipe_line-Extends :
      (list : TokenList) (rest : Bytes) (column : ℕ)
      → IsBounded list
      → Extends (IsFrom indent n) list (pipe_line g mem indent n list rest column)
  unfolding pipe_line value_ok
  pipe_line-Extends list rest column b =
      create_token-Extends list token_pipe _ indent n column limited b
        (rw (starts-skip_whitespace (drop 1 rest) (column + 1)))

  pub code_line-Extends :
      (list : TokenList) (rest : Bytes) (column : ℕ)
      → IsBounded list
      → Extends (IsFrom indent n) list (code_line g mem indent n list rest column)
  unfolding code_line value_ok
  code_line-Extends list rest column b =
      create_token-Extends list token_code _ indent n column limited b
        (rw (starts-skip_whitespace (drop 1 rest) (column + 1)))
