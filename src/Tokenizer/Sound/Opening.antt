-- ===== src/Tokenizer/Sound/Opening.antt =====
-- The first token of a line: `tokenize_line` adds the token that the first bytes behind the blanks
-- call for, before any other.
pub mod Loop
pub mod Line
use mathlib.Core.Option
use c_pug.TokenList.{token_list_add, Reallocs}
use c_pug.Common.{
  ℕ, zero, suc, ◌+◌, ◌<◌, ◌≡◌, refl, ap, ◌∙◌, sym, Bool, true, false, Option, none, some, List, [],
  ◌∷◌, ◌++◌, Bytes, arith, ◌==◌, length, codes, drop, if◌then◌else◌, ltb, ◌⊎◌, inl, inr, Bool-cases,
  append_assoc,
}
use c_pug.Glib.{Glib, Documented}
use c_pug.TokenList.Extends.{IsLimited, IsBounded, Extends, Extends-refl, token_list_add-IsBounded}
use c_pug.TokenList.Growth.{stores, tokens-token_list_add}
use c_pug.Tokenizer.Chars.{isalpha, is_name_byte, is_tag_byte, is_blank}
use c_pug.Tokenizer.Indent.Levels.{level_of, count_indent_level-level_of}
use c_pug.Tokenizer.Indent.{skip_whitespace}
use c_pug.Tokenizer.Line.Marks.{
  create_token, add_token, directive_line, doctype_line, include_line, extends_line, mixin_line,
  call_line, comment_line, pipe_line, code_line,
}
use c_pug.Tokenizer.Line.Start.{at_slashes, start_line, nonblank_line, tokenize_line}
use c_pug.Tokenizer.Line.Text.{
  LineState, Step, continues, add_buffer, scan_id, scan_class, scan_attributes, scan_tag, scan_step,
  scan_loop,
}
use c_pug.Tokenizer.Scan.Pieces.{take_while, drop_while, take_while-true, buffer-collect_while}
use c_pug.Tokenizer.Scan.{collect_parens}
use c_pug.Tokenizer.Sound.Loops.{scan_loop-Extends}
use c_pug.Tokenizer.Sound.Progress.{
  length-scan_id-le, length-scan_class-le, length-scan_attributes-le, length-scan_tag-le,
}
use c_pug.Tokenizer.Sound.Values.{IsFrom, buffer-truncate}
use c_pug.Tokens.{
  TokenType, token_doctype, token_include, token_extends, token_mixin, token_call,
  token_block_comment, token_comment, token_pipe, token_code, token_id, token_class, token_dot,
  token_attribute, token_tag, Token, TokenList,
}

abbrev pub token_of : ℕ → ℕ → TokenType → Bytes → ℕ → Token
token_of indent n type value column = record {
  type = type;
  value = some value;
  line = n;
  column = column;
  depth = indent;
  attributes = none;
}

-- The text behind `//`.
abbrev pub comment_token : ℕ → ℕ → Bytes → ℕ → Token
comment_token indent n [] column = token_of indent n token_comment [] column
comment_token indent n (c ∷ s) column =
    if c == b'-'
    then token_of indent n token_block_comment s column
    else token_of indent n token_comment (c ∷ s) column

abbrev pub class_token : ℕ → ℕ → Bytes → ℕ → Token
class_token indent n v column =
    token_of indent n (if ltb 0 (length v) then token_class else token_dot) v column

module _ (g : Glib) where
  -- The token of a line without a mark, whose text behind the blanks is `c ∷ r`; a byte that begins
  -- none is skipped.
  abbrev pub scan_opening : ℕ → ℕ → ℕ → ℕ → Bytes → Option Token
  scan_opening indent n column c r =
      if c == b'#'
      then some (token_of indent n token_id (take_while is_name_byte r) (column + 1))
      else if c == b'.'
      then some (class_token indent n (take_while is_name_byte r) (column + 1))
      else if c == b'('
      then some
          (token_of indent n token_attribute (collect_parens g 1 [] r (column + 1)).buffer column)
      else if isalpha c
      then some (token_of indent n token_tag (take_while is_tag_byte (c ∷ r)) column)
      else none

  -- The first token of a line whose text behind the blanks stands at `column`.
  abbrev pub text_opening : ℕ → ℕ → Bytes → ℕ → Option Token
  text_opening indent n [] column = none
  text_opening indent n (c ∷ r) column =
      let text = c ∷ r in
      let behind : ℕ → Bytes = λ k. drop_while is_blank (drop k text) in
      let token : TokenType → Bytes → Option Token =
        λ type v. some (token_of indent n type v column) in
      if g.g_str_has_prefix text (codes "doctype")
      then token token_doctype (behind 7)
      else if g.g_str_has_prefix text (codes "include")
      then token token_include (behind 7)
      else if g.g_str_has_prefix text (codes "extends")
      then token token_extends (behind 7)
      else if g.g_str_has_prefix text (codes "mixin")
      then token token_mixin (behind 5)
      else if c == b'+'
      then token token_call (behind 1)
      else if at_slashes c r
      then some (comment_token indent n (drop 1 r) column)
      else if c == b'|'
      then token token_pipe (behind 1)
      else if c == b'-'
      then token token_code (behind 1)
      else scan_opening indent n column c r

  -- The first token of line `n`, if its first byte that is no blank begins one.
  abbrev pub opening : Bytes → ℕ → Option Token
  opening line n =
      text_opening (level_of line) n (skip_whitespace line 0).0 (skip_whitespace line 0).1

-- Of a line with a first token the new tokens start with it, unless the list, which holds `k`
-- tokens, is full and cannot be enlarged for it.
abbrev pub Opens : Reallocs → ℕ → Option Token → List Token → Type 0
Opens mem k none new = Unit
Opens mem k (some t) new = ((rest : List Token) × (new ≡ t ∷ rest)) ⊎ (mem k t ≡ false)
