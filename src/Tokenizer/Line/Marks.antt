-- ===== src/Tokenizer/Line/Marks.antt =====
-- The lines that a mark at their start decides: directives, comments, piped text and code.
use c_pug.Common.{
  ℕ, ◌+◌, true, Option, none, some, [], ◌∷◌, Bytes, ◌==◌, if◌then◌else◌, drop, false,
}
use c_pug.Glib.{Glib}
use c_pug.TokenList.{token_list_add, Reallocs}
use c_pug.Tokenizer.Indent.{skip_whitespace}
use c_pug.Tokenizer.Scan.{collect_while}
use c_pug.Tokens.{
  TokenType, token_doctype, token_include, token_extends, token_mixin, token_call,
  token_block_comment, token_comment, token_pipe, token_code, Token, TokenList,
}

-- The order of the arguments is the source's: type, value, depth, line, column.
unfoldable pub create_token : TokenType → Option Bytes → ℕ → ℕ → ℕ → Option Token
create_token type value depth line column = some (record {
  type = type;
  value = value;
  line = line;
  column = column;
  depth = depth;
  attributes = none;
})

unfoldable pub add_token : Reallocs → TokenList → Option Token → TokenList
add_token mem list none = token_list_add false list none
add_token mem list (some token) = token_list_add (mem list.count token) list (some token)

module _ (g : Glib) (mem : Reallocs) (indent_level line_number : ℕ) where
  open g use {g_string_truncate}

  -- A mark of `n` bytes, blanks, and the rest of the line as the value.
  unfoldable pub directive_line : TokenType → ℕ → TokenList → Bytes → ℕ → TokenList
  directive_line type n list rest column =
      let (rest', pos) = skip_whitespace (drop n rest) (column + n) in
      let scan = collect_while g (λ _. true) [] rest' pos in
      add_token mem list (create_token type (some scan.buffer) indent_level line_number column)

  unfoldable pub doctype_line : TokenList → Bytes → ℕ → TokenList
  doctype_line = directive_line token_doctype 7

  unfoldable pub include_line : TokenList → Bytes → ℕ → TokenList
  include_line = directive_line token_include 7

  unfoldable pub extends_line : TokenList → Bytes → ℕ → TokenList
  extends_line = directive_line token_extends 7

  unfoldable pub mixin_line : TokenList → Bytes → ℕ → TokenList
  mixin_line = directive_line token_mixin 5

  unfoldable pub call_line : TokenList → Bytes → ℕ → TokenList
  call_line = directive_line token_call 1

  -- `rest` is the text behind `//`.
  unfoldable pub comment_line : TokenList → Bytes → ℕ → TokenList
  comment_line list [] column =
      add_token mem list (create_token token_comment (some []) indent_level line_number column)
  comment_line list (c ∷ s) column = add_token mem list (
      if c == b'-'
      then create_token token_block_comment (some s) indent_level line_number column
      else create_token token_comment (some (c ∷ s)) indent_level line_number column)

  -- A mark of one byte, blanks, and the rest of the line, which is not copied byte by byte.
  unfoldable pub pipe_line : TokenList → Bytes → ℕ → TokenList
  pipe_line list rest column =
      let (value, pos) = skip_whitespace (drop 1 rest) (column + 1) in
      add_token mem list (create_token token_pipe (some value) indent_level line_number column)

  unfoldable pub code_line : TokenList → Bytes → ℕ → TokenList
  code_line list rest column =
      let (value, pos) = skip_whitespace (drop 1 rest) (column + 1) in
      add_token mem list (create_token token_code (some value) indent_level line_number column)
