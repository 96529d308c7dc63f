-- ===== src/Tokenizer/Line/Start.antt =====
-- `tokenize_line`: the branches at the first byte that is no blank.
use c_pug.TokenList.{Reallocs}
use mathlib.Core.Option
use c_pug.Common.{
  ℕ, ◌+◌, Bool, ◌&&◌, Option, some, [], ◌∷◌, Bytes, ◌==◌, if◌then◌else◌, length, codes, ◌>>=◌, drop,
  false,
}
use c_pug.Glib.{Glib}
use c_pug.Tokenizer.Indent.{count_indent_level, skip_whitespace}
use c_pug.Tokenizer.Line.Marks.{
  doctype_line, include_line, extends_line, mixin_line, call_line, comment_line, pipe_line,
  code_line,
}
use c_pug.Tokenizer.Line.Text.{scan_loop}
use c_pug.Tokens.{TokenList}

-- `line[pos] == '/' && line[pos + 1] == '/'`
abbrev pub at_slashes : ℕ → Bytes → Bool
at_slashes c [] = false
at_slashes c (d ∷ _) = c == b'/' && d == b'/'

module _ (g : Glib) (mem : Reallocs) where
  open g use {g_str_has_prefix}

  -- `&line[pos]` is `c ∷ r`, and `pos` is `column`.
  unfoldable pub start_line : ℕ → ℕ → TokenList → ℕ → ℕ → Bytes → Option TokenList
  start_line indent_level line_number list column c r =
      let rest = c ∷ r in
      let scanned =
        scan_loop g mem indent_level line_number (length rest + 1)
          (record { tokens = list; buffer = []; rest = rest; pos = column; column = column }) in
      if g_str_has_prefix rest (codes "doctype")
      then some (doctype_line g mem indent_level line_number list rest column)
      else if g_str_has_prefix rest (codes "include")
      then some (include_line g mem indent_level line_number list rest column)
      else if g_str_has_prefix rest (codes "extends")
      then some (extends_line g mem indent_level line_number list rest column)
      else if g_str_has_prefix rest (codes "mixin")
      then some (mixin_line g mem indent_level line_number list rest column)
      else if c == b'+'
      then some (call_line g mem indent_level line_number list rest column)
      else if at_slashes c r
      then some (comment_line g mem indent_level line_number list (drop 1 r) column)
      else if c == b'|'
      then some (pipe_line g mem indent_level line_number list rest column)
      else if c == b'-'
      then some (code_line g mem indent_level line_number list rest column)
      else Option.map (λ s. s.tokens) scanned

  -- The text from the first byte that is no blank, with its index.
  unfoldable pub nonblank_line : ℕ → ℕ → TokenList → Bytes → ℕ → Option TokenList
  nonblank_line indent_level line_number list [] column = some list
  nonblank_line indent_level line_number list (c ∷ r) column =
      start_line indent_level line_number list column c r

  -- `none` means that a loop ran out of fuel.
  unfoldable pub tokenize_line : TokenList → Bytes → ℕ → Option TokenList
  tokenize_line list line line_number = do
    indent_level ← count_indent_level line
    let (rest, column) = skip_whitespace line 0
    nonblank_line indent_level line_number list rest column
